-- ===== src/Admin/Deletion/Blockers.antt =====
-- What the list of blockers says of the state (`buildDeleteBlockers` of admin-users.service.ts).
use zendou_backend.Common.{
  ℕ, ◌≡◌, refl, inl, inr, Bool, not, ◌&&◌, List, [], ◌∷◌, arith, ltb, ◌==◌, Bool-cases, count,
  remove_where,
}
use zendou_backend.Schema.{World}
use zendou_backend.Admin.{Blocker}
use zendou_backend.Admin.Deletion.{is_client_email, is_client_entry, blocker, delete_blockers}

module _ {ℓ} {A : Type ℓ} (own exempt : A → Bool) where
  -- Where all own rows are exempt, the removal of the exempt ones leaves none.
  pub remaining-zero :
      (xs : List A)
      → count (λ x. own x && not (exempt x)) xs ≡ 0
      → count own (remove_where (λ x. own x && exempt x) xs) ≡ 0
  remaining-zero [] h = refl
  remaining-zero (x ∷ xs) h = ground (arith, remaining-zero xs)

-- No count of `buildDeleteBlockers` is positive where its list is empty.
pub record IsUnblocked (id : ℕ) (w : World) : Type 0 where
  pub no_domains : count (λ d. d.user_id == id) w.domains ≡ 0
  pub no_keys : count (λ k. k.user_id == id) w.api_keys ≡ 0
  pub no_credentials : count (λ k. k.user_id == id) w.smtp_credentials ≡ 0
  pub no_emails : count (is_client_email id) w.emails ≡ 0
  pub no_entries : count (is_client_entry id) w.credit_entries ≡ 0
  pub no_requests : count (λ r. r.user_id == id) w.topup_requests ≡ 0
  pub no_actions : count (λ a. a.admin_id == id) w.admin_actions ≡ 0

blocker-none :
    (name : ℕ → Blocker) (number : ℕ) (others : List Blocker)
    → blocker name number others ≡ []
    → (number ≡ 0) × (others ≡ [])
blocker-none name number others e = elim (Bool-cases (ltb 0 number)) [
  | inl some_rows ↦ cc (rw some_rows at e)
  | inr no_rows ↦ (ground arith, rw no_rows at e)
]

pub delete_blockers-IsUnblocked :
    (id : ℕ) (w : World) → delete_blockers id w ≡ [] → IsUnblocked id w
unfolding delete_blockers
delete_blockers-IsUnblocked id w e =
    let (domains, e₁) = blocker-none Blocker.domains _ _ e in
    let (keys, e₂) = blocker-none Blocker.api_keys _ _ e₁ in
    let (credentials, e₃) = blocker-none Blocker.smtp_credentials _ _ e₂ in
    let (emails, e₄) = blocker-none Blocker.emails _ _ e₃ in
    let (entries, e₅) = blocker-none Blocker.credit_entries _ _ e₄ in
    let (requests, e₆) = blocker-none Blocker.topup_requests _ _ e₅ in
    let (actions, _) = blocker-none Blocker.admin_actions _ _ e₆ in
    record {
      no_domains = domains;
      no_keys = keys;
      no_credentials = credentials;
      no_emails = emails;
      no_entries = entries;
      no_requests = requests;
      no_actions = actions;
    }
