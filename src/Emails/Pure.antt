-- ===== src/Emails/Pure.antt =====
-- The checks in sequence: each one only reads, and the first that refuses ends the sequence.
use zendou_backend.Common.{◌≡◌, refl}
use zendou_backend.Emails.Refusal.{Result, ok, err}

module _ {ℓ κ} {A : Type ℓ} {B : Type κ} where
  infixl 5 ◌>>=◌ ◌>>◌
  abbrev pub ◌>>=◌ : Result A → (A → Result B) → Result B
  check >>= next = elim check [ ok value ↦ next value | err failure ↦ err failure ]

  abbrev pub ◌>>◌ : Result A → Result B → Result B
  check >> next = elim check [ ok _ ↦ next | err failure ↦ err failure ]

  -- A sequence that passes has passed its first check.
  pub >>=-eq-ok :
      (check : Result A) (next : A → Result B) {b : B}
      → (check >>= next) ≡ ok b
      → (value : A) × (check ≡ ok value) × (next value ≡ ok b)
  >>=-eq-ok (ok value) next passed = (value, refl, passed)
  >>=-eq-ok (err failure) next passed = cc
