-- ===== src/Common/Lists.antt =====
-- Lists as tables: measured by native numbers, searched and updated by a Boolean test.
use Prim.Native.Nat.{ℕ, zero, suc, ◌+◌, ◌≤◌, ◌<◌}
use mathlib.Core.Path.{◌≡◌, refl, ap}
use mathlib.Core.Bool.{Bool, true, false, ◌&&◌}
use mathlib.Core.List.{List, [], ◌∷◌, ◌++◌, Memᴰ}
use mathlib.Core.Logic.{inl, inr}
use mathlib.Core.Option.{Option, none, some}
use native.Mathlib.Omega.{arith}
use zendou_backend.Common.Tests.{if◌then◌else◌, Bool-cases}

module _ {ℓ} {A : Type ℓ} where
  abbrev pub length : List A → ℕ
  length [] = 0
  length (x ∷ xs) = suc (length xs)

  -- `xs.every(p)`
  abbrev pub all : (A → Bool) → List A → Bool
  all p [] = true
  all p (x ∷ xs) = p x && all p xs

  -- The first row that passes the test.
  abbrev pub find : (A → Bool) → List A → Option A
  find p [] = none
  find p (x ∷ xs) = if p x then some x else find p xs

  -- The number of rows that pass the test.
  abbrev pub count : (A → Bool) → List A → ℕ
  count p [] = 0
  count p (x ∷ xs) = (if p x then 1 else 0) + count p xs

  -- `updateMany`: every row that passes the test is rewritten.
  abbrev pub update_where : (A → Bool) → (A → A) → List A → List A
  update_where p f [] = []
  update_where p f (x ∷ xs) = (if p x then f x else x) ∷ update_where p f xs

  -- `deleteMany`
  abbrev pub remove_where : (A → Bool) → List A → List A
  remove_where p [] = []
  remove_where p (x ∷ xs) = let rest = remove_where p xs in if p x then rest else x ∷ rest

  abbrev pub take : ℕ → List A → List A
  take zero xs = []
  take (suc n) [] = []
  take (suc n) (x ∷ xs) = x ∷ take n xs

  -- A list that is shorter than what is taken of it.
  pub take_all : (n : ℕ) (xs : List A) → length (take n xs) < n → take n xs ≡ xs
  take_all zero xs h = ground (arith, h)
  take_all (suc n) [] h = refl
  take_all (suc n) (x ∷ xs) h = ap (λ ys. x ∷ ys) (take_all n xs (omega (arith, h)))

  pub length-append : (xs ys : List A) → length (xs ++ ys) ≡ length xs + length ys
  length-append [] ys = omega arith
  length-append (x ∷ xs) ys = omega (arith, length-append xs ys)

  pub count-append : (p : A → Bool) (xs ys : List A) → count p (xs ++ ys) ≡ count p xs + count p ys
  count-append p [] ys = omega arith
  count-append p (x ∷ xs) ys = omega (arith, count-append p xs ys)

  -- A row that a search returns passes the test.
  pub find_sound : (p : A → Bool) (xs : List A) (a : A) → find p xs ≡ some a → p a ≡ true
  find_sound p [] a h = cc
  find_sound p (x ∷ xs) a h = ground (arith, find_sound p xs a)

module _ {ℓ} {A : Type ℓ} (p : A → Bool) where
  pub find-remove_self : (xs : List A) → find p (remove_where p xs) ≡ none
  find-remove_self [] = refl
  find-remove_self (x ∷ xs) = ground (arith, find-remove_self xs)

  pub count-remove_self : (xs : List A) → count p (remove_where p xs) ≡ 0
  count-remove_self [] = refl
  count-remove_self (x ∷ xs) = ground (arith, count-remove_self xs)

  module _ (q : A → Bool) (apart : (x : A) → q x ≡ true → p x ≡ false) where
    pub find-remove_other : (xs : List A) → find q (remove_where p xs) ≡ find q xs
    find-remove_other [] = refl
    find-remove_other (x ∷ xs) = ground (arith, apart x, find-remove_other xs)

    pub count-remove_other : (xs : List A) → count q (remove_where p xs) ≡ count q xs
    count-remove_other [] = refl
    count-remove_other (x ∷ xs) = ground (arith, apart x, count-remove_other xs)

  -- An update that does not change the test does not change the count.
  pub count-update_where :
      (q : A → Bool) (f : A → A) (xs : List A)
      → ((x : A) → p (f x) ≡ p x)
      → count p (update_where q f xs) ≡ count p xs
  count-update_where q f [] keeps = refl
  count-update_where q f (x ∷ xs) keeps = ground (arith, keeps x, count-update_where q f xs keeps)

  -- After an update of all that passes, to what does not pass, nothing passes.
  pub count-update_self :
      (f : A → A) (xs : List A) → ((x : A) → p (f x) ≡ false) → count p (update_where p f xs) ≡ 0
  count-update_self f [] clears = refl
  count-update_self f (x ∷ xs) clears = ground (arith, clears x, count-update_self f xs clears)

module _ {ℓ} {A : Type ℓ} (p : A → Bool) where
  pub kept_member : (x : A) (xs : List A) → Memᴰ x (remove_where p xs) → Memᴰ x xs
  kept_member x [] m = m
  kept_member x (y ∷ ys) m = elim (Bool-cases (p y)) [
    | inl out ↦ Memᴰ.tail (kept_member x ys (rw out at m))
    | inr stays ↦ elim (rw stays at m) [
      | Memᴰ.head e ↦ Memᴰ.head e
      | Memᴰ.tail later ↦ Memᴰ.tail (kept_member x ys later)
    ]
  ]

  pub length-remove_where : (xs : List A) → length (remove_where p xs) ≤ length xs
  length-remove_where [] = omega arith
  length-remove_where (x ∷ xs) = ground (arith, length-remove_where xs)

  -- What removes a row shortens the list.
  pub remove_where_shortens :
      (x : A) (xs : List A) → Memᴰ x xs → p x ≡ true → length (remove_where p xs) < length xs
  remove_where_shortens x [] m h = elim m [ ]
  remove_where_shortens x (y ∷ ys) (Memᴰ.head e) h =
      let there : p y ≡ true = cc (ap p e, h) in ground (arith, length-remove_where ys)
  remove_where_shortens x (y ∷ ys) (Memᴰ.tail m) h = ground (arith, remove_where_shortens x ys m h)

module _ {ℓ} {A : Type ℓ} (p : A → Bool) (f : A → A) where
  pub update_where-append :
      (xs ys : List A) → update_where p f (xs ++ ys) ≡ update_where p f xs ++ update_where p f ys
  update_where-append [] ys = refl
  update_where-append (x ∷ xs) ys =
      ap (λ zs. (if p x then f x else x) ∷ zs) (update_where-append xs ys)

module _ {ℓ} {A : Type ℓ} (p q : A → Bool) where
  pub remove_where_cong :
      (xs : List A) → ((x : A) → Memᴰ x xs → p x ≡ q x) → remove_where p xs ≡ remove_where q xs
  remove_where_cong [] same = refl
  remove_where_cong (x ∷ xs) same =
      let here = same x (Memᴰ.head refl) in
      let rest = remove_where_cong xs (λ y m. same y (Memᴰ.tail m)) in ground arith

  -- A removal after one that removes less.
  pub remove_where_absorb :
      (xs : List A)
      → ((x : A) → Memᴰ x xs → p x ≡ true → q x ≡ true)
      → remove_where q (remove_where p xs) ≡ remove_where q xs
  remove_where_absorb [] within = refl
  remove_where_absorb (x ∷ xs) within =
      let here = within x (Memᴰ.head refl) in
      let rest = remove_where_absorb xs (λ y m. within y (Memᴰ.tail m)) in ground arith

  count_none : (xs : List A) → count p xs ≡ 0 → count (λ x. p x && q x) xs ≡ 0
  count_none [] h = refl
  count_none (x ∷ xs) h = ground (arith, count_none xs)

  -- Where one row alone passes a test, what holds of some row that passes holds of that one.
  pub count_unique :
      (xs : List A) (a : A)
      → count p xs ≡ 1
      → find p xs ≡ some a
      → 1 ≤ count (λ x. p x && q x) xs
      → q a ≡ true
  count_unique [] a one h some_row = cc
  count_unique (x ∷ xs) a one h some_row = ground (arith, count_unique xs a, count_none xs)

  pub count_mono : (xs : List A) → ((x : A) → p x ≡ true → q x ≡ true) → count p xs ≤ count q xs
  count_mono [] within = omega arith
  count_mono (x ∷ xs) within = ground (arith, within x, count_mono xs within)

module _ {ℓ κ} {A : Type ℓ} (P : A → Type κ) where
  abbrev pub All : List A → Type κ
  All [] = Unit
  All (x ∷ xs) = P x × All xs

  pub All-append : (xs ys : List A) → All xs → All ys → All (xs ++ ys)
  All-append [] ys h k = k
  All-append (x ∷ xs) ys (p, h) k = (p, All-append xs ys h k)

module _ {ℓ} {A : Type ℓ} (p : A → Bool) (f : A → A) where
  -- The first row that passes is still the first after an update of the rows that pass, if the
  -- update keeps them passing.
  pub find-update_where :
      (xs : List A) (a : A)
      → ((x : A) → p (f x) ≡ p x)
      → find p xs ≡ some a
      → find p (update_where p f xs) ≡ some (f a)
  find-update_where [] a keeps h = cc
  find-update_where (x ∷ xs) a keeps h = ground (arith, keeps x, find-update_where xs a keeps)

  -- The same for an update of the rows that pass another test.
  pub find-update_any :
      (q : A → Bool) (xs : List A) (a : A)
      → ((x : A) → p (f x) ≡ p x)
      → find p xs ≡ some a
      → find p (update_where q f xs) ≡ some (if q a then f a else a)
  find-update_any q [] a keeps h = cc
  find-update_any q (x ∷ xs) a keeps h = ground (arith, keeps x, find-update_any q xs a keeps)
