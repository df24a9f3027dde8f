-- ===== src/AccountLifecycle/Anonymization/Erasure.antt =====
-- What an erasure takes and keeps, and when one happens.
use zendou_backend.Common.{
  ℕ, ◌≡◌, refl, inl, inr, Bool, true, false, not, ◌&&◌, ◌||◌, Option, none, some, arith, ◌==◌,
  Bool-cases, Option-cases, is_some, if◌then◌else◌, count, count_unique,
}
use zendou_backend.Schema.{User, World, find_user}
use zendou_backend.Admin.{Denial, already_anonymized, AdminReply, performed, denied}
use zendou_backend.AccountLifecycle.{has_purchased_credits}
use zendou_backend.AccountLifecycle.Anonymization.{
  Origin, Erasing, AnonymizationResult, is_admin, is_eligible, may_rewrite, write_erasure, revoke,
  by_itself, erase, skip, refuse, decide, carry_out, is_self, anonymize,
}

-- The key of an account is its own.
abbrev pub IsKey : ℕ → World → Type 0
IsKey user w = count (λ u. u.id == user) w.users ≡ 1

module _ (ctx : Erasing) (user : ℕ) (origin : Origin) (w : World) where
  -- The account that an erasure has found.
  pub record IsErasable (u : User) : Type 0 where
    pub row : find_user w user ≡ some u
    pub is_client : is_admin u.role ≡ false
    pub not_erased : is_some u.anonymized_at ≡ false
    pub eligible : is_eligible origin u ≡ true
    pub unprotected : (by_itself origin && has_purchased_credits w user) ≡ false

  abbrev pub after_erasure : World
  after_erasure = revoke ctx user (write_erasure ctx origin user w)

  -- The ways in which an anonymization ends.
  pub data ErasureOutcome : AdminReply (Option AnonymizationResult) → World → Type 0 where
    refuses : {reason : Denial} → ErasureOutcome (denied reason) w
    skips : ErasureOutcome (performed none) w
    erases :
        {result : AnonymizationResult} (u : User)
        → IsErasable u
        → ErasureOutcome (performed (some result)) after_erasure

  eligible_of :
      (u : User)
      → IsKey user w
      → find_user w user ≡ some u
      → (count (may_rewrite origin user) w.users == 0) ≡ false
      → (not (is_some u.anonymized_at) && not (is_admin u.role) && is_eligible origin u) ≡ true
  eligible_of u key row found =
      count_unique (λ (u : User). u.id == user)
        (λ (u : User).
          not (is_some u.anonymized_at) && not (is_admin u.role) && is_eligible origin u)
        w.users u key row (ground arith)

  found-IsErasable :
      (u : User)
      → IsKey user w
      → find_user w user ≡ some u
      → (by_itself origin && has_purchased_credits w user) ≡ false
      → (count (may_rewrite origin user) w.users == 0) ≡ false
      → IsErasable u
  found-IsErasable u key row unprotected found =
      let all = eligible_of u key row found in
      record {
        row = row;
        is_client = ground arith;
        not_erased = ground arith;
        eligible = ground arith;
        unprotected = unprotected;
      }

  count_cases :
      (u : User)
      → IsKey user w
      → find_user w user ≡ some u
      → (by_itself origin && has_purchased_credits w user) ≡ false
      → (b : Bool) → (count (may_rewrite origin user) w.users == 0) ≡ b
      → ErasureOutcome
          (carry_out ctx origin user w
            (if b then if by_itself origin then skip else refuse already_anonymized else erase)).0
          (carry_out ctx origin user w
            (if b then if by_itself origin then skip else refuse already_anonymized else erase)).1
  count_cases u key row unprotected false e = erases u (found-IsErasable u key row unprotected e)
  count_cases u key row unprotected true e = elim (Bool-cases (by_itself origin)) [
    | inl itself ↦ rw itself skips
    | inr asked ↦ rw asked refuses
  ]

  row_cases :
      (u : User)
      → IsKey user w
      → find_user w user ≡ some u
      → ErasureOutcome
          (carry_out ctx origin user w (decide origin user w (some u))).0
          (carry_out ctx origin user w (decide origin user w (some u))).1
  row_cases u key row =
      elim (Bool-cases (by_itself origin && (is_admin u.role || is_some u.anonymized_at))) [
        | inl ineligible ↦ rw ineligible skips
        | inr e₁ ↦ elim (Bool-cases (by_itself origin && has_purchased_credits w user)) [
          | inl protected ↦ rw (e₁, protected) skips
          | inr e₂ ↦ elim (Bool-cases (is_admin u.role)) [
            | inl administrator ↦ rw (e₁, e₂, administrator) refuses
            | inr e₃ ↦ elim (Bool-cases (is_some u.anonymized_at)) [
              | inl already ↦ rw (e₁, e₂, e₃, already) refuses
              | inr e₄ ↦ rw e₁ (rw e₂ (rw e₃ (rw e₄ (count_cases u key row e₂ _ refl))))
            ]
          ]
        ]
      ]

  pub anonymize-ErasureOutcome :
      IsKey user w → ErasureOutcome (anonymize ctx user origin w).0 (anonymize ctx user origin w).1
  unfolding anonymize
  anonymize-ErasureOutcome key = elim (Bool-cases (is_self origin user)) [
    | inl self ↦ rw self refuses
    | inr other ↦ elim (Option-cases (find_user w user)) [
      | inl missing ↦ rw (other, missing) refuses
      | inr (u, row) ↦ rw (other, row) (row_cases u key row)
    ]
  ]
