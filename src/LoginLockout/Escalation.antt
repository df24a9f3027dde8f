-- ===== src/LoginLockout/Escalation.antt =====
-- Sequences of failed logins for one address, and the duration of the lock.
use native.Mathlib.Nat.{pow-suc}
use zendou_backend.Common.{
  ℕ, ◌+◌, ◌-◌, ◌*◌, ◌^◌, ◌≤◌, ◌<◌, min, ◌≡◌, refl, ap, ◌∙◌, true, false, Option, none, some, List,
  [], ◌∷◌, ◌++◌, arith, length, ltb, All,
}
use zendou_backend.LoginLockout.{
  Settings, Counter, Keys, incr, open_window, block_seconds, lock, record_failure,
}

-- Failures at these instants, one after the other, with Redis up.
pub failures : Settings → List ℕ → Keys → Keys
failures s [] k = k
failures s (now ∷ rest) k = failures s rest (record_failure s true now k)

abbrev value_of : Option Counter → ℕ
value_of none = 0
value_of (some c) = c.value

counted :
    (now window : ℕ) (c : Option Counter)
    → (open_window now window (incr now c)).value ≤ value_of c + 1
counted now window none = omega arith
counted now window (some c) = ground arith

-- A failure under the threshold.
counts :
    (s : Settings) (now : ℕ) (k : Keys) (c : Counter)
    → open_window now s.window_seconds (incr now k.fail) ≡ c
    → c.value < s.threshold
    → record_failure s true now k ≡ record k { fail = some c }
unfolding record_failure
counts s now k c e few =
    let tested : ltb c.value s.threshold ≡ true = ground arith in rw (e, tested) refl

-- A failure that reaches it.
locks :
    (s : Settings) (now : ℕ) (k : Keys) (c : Counter)
    → open_window now s.window_seconds (incr now k.fail) ≡ c
    → s.threshold ≤ c.value
    → record_failure s true now k ≡ lock s now k
unfolding record_failure
locks s now k c e many =
    let tested : ltb c.value s.threshold ≡ false = ground arith in rw (e, tested) refl

below :
    (s : Settings) (ts : List ℕ) (k : Keys)
    → value_of k.fail + length ts < s.threshold
    → (failures s ts k).block ≡ k.block
unfolding failures
below s [] k h = refl
below s (now ∷ ts) k h =
    let c = open_window now s.window_seconds (incr now k.fail) in
    let small = counted now s.window_seconds k.fail in
    ap (λ (k' : Keys). (failures s ts k').block) (counts s now k c refl (omega (arith, small)))
    ∙ below s ts (record k { fail = some c }) (omega (arith, small))

-- Fewer failures than the threshold, at whatever instants, never lock an address whose counter is
-- clear, and never lengthen a lock that runs.
pub failures-below :
    (s : Settings) (ts : List ℕ) (k : Keys)
    → k.fail ≡ none
    → length ts < s.threshold
    → (failures s ts k).block ≡ k.block
failures-below s ts k clear few = below s ts k (rw clear (omega (arith, few)))

-- A counter that runs goes up by one.
running :
    (now window at v : ℕ)
    → now < at
    → 0 < v
    → open_window now window (incr now (some (record { value = v; expires = some at })))
      ≡ record { value = v + 1; expires = some at }
running now window at v early started = ground arith

abbrev pub Before : ℕ → ℕ → Type 0
Before at t = t < at

module _ (s : Settings) (at last : ℕ) (early : last < at) where
  reaches :
      (ts : List ℕ) (k : Keys) (v : ℕ)
      → All (Before at) ts
      → 0 < v
      → v + length ts + 1 ≡ s.threshold
      → k.fail ≡ some (record { value = v; expires = some at })
      → (failures s (ts ++ last ∷ []) k).block
        ≡ some (last + block_seconds s (incr last k.level).value)
  unfolding failures
  reaches [] k v _ started count runs =
      ap (λ (k' : Keys). k'.block)
        (locks s last k (record { value = v + 1; expires = some at })
          (rw runs (running last s.window_seconds at v early started)) (omega arith))
  reaches (now ∷ ts) k v (first, others) started count runs =
      let c : Counter = record { value = v + 1; expires = some at } in
      ap (λ (k' : Keys). (failures s (ts ++ last ∷ []) k').block)
        (counts s now k c (rw runs (running now s.window_seconds at v first started)) (omega arith))
      ∙ reaches ts (record k { fail = some c }) (v + 1) others (omega arith) (omega arith) refl

-- All the failures but the first, and the last one, come within the window of the first.
unfoldable pub InWindow : Settings → List ℕ → ℕ → Type 0
InWindow s [] last = Unit {0}
InWindow s (first ∷ ts) last =
    All (Before (first + s.window_seconds)) ts × (last < first + s.window_seconds)

-- As many failures as the threshold, all within the window of the first, on a counter that is
-- clear, lock the address from the last of them on, for the base duration doubled at each level
-- after the first and never beyond the maximum.
pub failures-lock :
    (s : Settings) (ts : List ℕ) (last : ℕ) (k : Keys)
    → k.fail ≡ none
    → InWindow s ts last
    → length ts + 1 ≡ s.threshold
    → (failures s (ts ++ last ∷ []) k).block
      ≡ some (last + min (s.base_seconds * 2 ^ ((incr last k.level).value - 1)) s.max_seconds)
unfolding failures InWindow block_seconds
failures-lock s [] last k clear early count =
    ap (λ (k' : Keys). k'.block)
      (locks s last k (record { value = 1; expires = some (last + s.window_seconds) })
        (rw clear refl) (omega arith))
failures-lock s (first ∷ ts) last k clear (early, late) count =
    let c : Counter = record { value = 1; expires = some (first + s.window_seconds) } in
    ap (λ (k' : Keys). (failures s (ts ++ last ∷ []) k').block)
      (counts s first k c (rw clear refl) (omega arith))
    ∙ reaches s (first + s.window_seconds) last late ts (record k { fail = some c }) 1 early
        (omega arith) (omega arith) refl

capped : (p m : ℕ) → min (2 * p) m ≡ min (2 * min p m) m
capped p m = omega arith

power : (base level : ℕ) → base * 2 ^ (level + 1) ≡ 2 * (base * 2 ^ level)
power base level = grind (arith, pow-suc 2 level)

shifted : (level : ℕ) → level + 2 - 1 ≡ level + 1
shifted level = omega arith

unshifted : (level : ℕ) → level + 1 - 1 ≡ level
unshifted level = omega arith

-- The wait is the base duration at the first level, doubles from one level to the next, and stops
-- at the maximum.
pub block_seconds-doubles :
    (s : Settings) (level : ℕ)
    → (block_seconds s 1 ≡ min s.base_seconds s.max_seconds)
      × (block_seconds s (level + 2) ≡ min (2 * block_seconds s (level + 1)) s.max_seconds)
unfolding block_seconds
block_seconds-doubles s level = (
  omega arith,
  rw (shifted level, unshifted level)
      (rw (power s.base_seconds level) (capped (s.base_seconds * 2 ^ level) s.max_seconds)),
)
