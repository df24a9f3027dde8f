-- ===== src/AccountLifecycle/Masking.antt =====
-- What is left of a phone number that is masked.
use zendou_backend.Common.{
  ℕ, zero, suc, ◌+◌, ◌≤◌, ◌≡◌, refl, inl, inr, Bool, true, not, ◌&&◌, ◌||◌, List, [], ◌∷◌, ◌++◌,
  arith, leb, ltb, ◌==◌, length, Bool-cases, all, update_where,
}
use zendou_backend.Text.{Text, text, trim, starts_with, take}
use zendou_backend.Schema.{TopUpRequest}
use zendou_backend.AccountLifecycle.{digits_of, last_four, country_prefix, mask_phone_number}
use zendou_backend.AccountLifecycle.Anonymization.{mask_request}

length-digits_of : (s : Text) → length (digits_of s) ≤ length s
unfolding digits_of
length-digits_of [] = omega arith
length-digits_of (c ∷ s) = ground (arith, length-digits_of s)

digits_of-append :
    (s t : Text) → length (digits_of (s ++ t)) ≡ length (digits_of s) + length (digits_of t)
unfolding digits_of
digits_of-append [] t = omega arith
digits_of-append (c ∷ s) t = ground (arith, digits_of-append s t)

length-last_four : (s : Text) → length (last_four s) ≤ 4
unfolding last_four
length-last_four [] = omega arith
length-last_four (c ∷ s) = ground (arith, length-last_four s)

length-take : (n : ℕ) (s : Text) → length (take n s) ≤ n
unfolding take
length-take zero s = omega arith
length-take (suc n) [] = omega arith
length-take (suc n) (c ∷ s) = omega (arith, length-take n s)

digits_of-prefix : (value digits : Text) → length (digits_of (country_prefix value digits)) ≤ 3
unfolding digits_of
digits_of-prefix value digits =
    elim (Bool-cases (starts_with (trim value) (text "+") && ltb 7 (length digits))) [
      | inl abroad ↦
          let shown : length (digits_of (text "+" ++ take 3 digits)) ≤ 3 =
            omega (arith, length-digits_of (take 3 digits), length-take 3 digits) in
          rw abroad shown
      | inr plain ↦ rw plain (omega arith)
    ]

-- A masked number shows three digits at the front and four at the end at most.
pub mask_phone_number-hides : (value : Text) → length (digits_of (mask_phone_number value)) ≤ 7
unfolding mask_phone_number digits_of
mask_phone_number-hides value =
    let digits = digits_of value in
    elim (Bool-cases (leb (length digits) 4)) [
      | inl short ↦ rw short (omega arith)
      | inr long ↦
          let front =
            digits_of-append (country_prefix value digits ++ text "****") (last_four digits) in
          let back = digits_of-append (country_prefix value digits) (text "****") in
          let shown : length
                (digits_of (country_prefix value digits ++ text "****" ++ last_four digits))
              ≤ 7 =
            (omega (
              arith,
              front,
              back,
              digits_of-prefix value digits,
              length-digits_of (last_four digits),
              length-last_four digits,
            )) in
          rw long shown
    ]

abbrev pub is_hidden : ℕ → TopUpRequest → Bool
is_hidden user r = not (r.user_id == user) || leb (length (digits_of r.phone_number)) 7

pub masked-hidden :
    (user : ℕ) (rows : List TopUpRequest)
    → all (is_hidden user) (update_where (λ r. r.user_id == user) mask_request rows) ≡ true
masked-hidden user [] = refl
masked-hidden user (r ∷ rows) =
    ground (arith, mask_phone_number-hides r.phone_number, masked-hidden user rows)
