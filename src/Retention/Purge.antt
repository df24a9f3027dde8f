-- ===== src/Retention/Purge.antt =====
-- The pages of a purge together.
use zendou_backend.Common.{
  ℕ, zero, suc, ◌<◌, ◌≡◌, refl, sym, ap, ◌∙◌, inl, inr, Bool, true, false, some, List, [], ◌∷◌,
  arith, ltb, ltb→lt, ◌==◌, Bool-cases, length, remove_where, take, take_all, kept_member,
  remove_where_shortens, remove_where_cong, remove_where_absorb,
}
use mathlib.Core.List.{Memᴰ}
use zendou_backend.Schema.{Email, World}
use zendou_backend.Retention.{
  email_log_delete_batch_size, is_expired, expired_ids, has_id, delete_ids, purge_old_emails,
}

-- The ids are primary keys.
abbrev pub IsKeyed : List Email → Type 0
IsKeyed es = (e e' : Email) → Memᴰ e es → Memᴰ e' es → e.id ≡ e'.id → e ≡ e'

-- The database returns the matching rows in some order.
pub record IsOrder (order : List ℕ → List ℕ) : Type 0 where
  pub same_ids : (ids : List ℕ) (id : ℕ) → has_id (order ids) id ≡ has_id ids id

has_id-take : (n : ℕ) (ids : List ℕ) (id : ℕ) → has_id (take n ids) id ≡ true → has_id ids id ≡ true
has_id-take zero ids id h = cc
has_id-take (suc n) [] id h = h
has_id-take (suc n) (x ∷ xs) id h = let rest = has_id-take n xs id in ground arith

member-expired :
    (cutoff : ℕ) (es : List Email) (e : Email)
    → Memᴰ e es
    → is_expired cutoff e ≡ true
    → has_id (expired_ids cutoff es) e.id ≡ true
member-expired cutoff [] e m h = elim m [ ]
member-expired cutoff (x ∷ xs) e (Memᴰ.head same) h =
    let here : is_expired cutoff x ≡ true = cc (ap (is_expired cutoff) same, h) in
    rw here (ground (arith, ap (λ (y : Email). y.id) same))
member-expired cutoff (x ∷ xs) e (Memᴰ.tail m) h =
    let rest = member-expired cutoff xs e m h in ground arith

-- An id of the list is that of an expired row.
record Expired (cutoff : ℕ) (es : List Email) (id : ℕ) : Type 0 where
  pub row : Email
  pub member : Memᴰ row es
  pub own : row.id ≡ id
  pub old : is_expired cutoff row ≡ true

later-Expired :
    (cutoff : ℕ) (x : Email) (xs : List Email) (id : ℕ)
    → Expired cutoff xs id
    → Expired cutoff (x ∷ xs) id
later-Expired cutoff x xs id r = record {
  row = r.row;
  member = Memᴰ.tail r.member;
  own = r.own;
  old = r.old;
}

expired_ids-Expired :
    (cutoff : ℕ) (es : List Email) (id : ℕ)
    → has_id (expired_ids cutoff es) id ≡ true
    → Expired cutoff es id
expired_ids-Expired cutoff [] id h = cc
expired_ids-Expired cutoff (x ∷ xs) id h = elim (Bool-cases (is_expired cutoff x)) [
  | inr recent ↦ later-Expired cutoff x xs id (expired_ids-Expired cutoff xs id (rw recent at h))
  | inl old ↦ elim (Bool-cases (x.id == id)) [
    | inl same ↦ record { row = x; member = Memᴰ.head refl; own = ground (arith, same); old = old }
    | inr other ↦
        later-Expired cutoff x xs id (expired_ids-Expired cutoff xs id (rw (old, other) at h))
  ]
]

iff-same : (a b : Bool) → (a ≡ true → b ≡ true) → (b ≡ true → a ≡ true) → a ≡ b
iff-same true b f g = sym (f refl)
iff-same false true f g = g refl
iff-same false false f g = refl

none_removed : (es : List Email) → remove_where (λ e. has_id [] e.id) es ≡ es
none_removed [] = refl
none_removed (e ∷ es) = ap (λ rest. e ∷ rest) (none_removed es)

module _ (cutoff : ℕ) (es : List Email) (keyed : IsKeyed es) (ids : List ℕ) where
  -- Only expired rows bear these ids.
  module _
      (within : (id : ℕ) → has_id ids id ≡ true → has_id (expired_ids cutoff es) id ≡ true) where
    named-expired : (e : Email) → Memᴰ e es → has_id ids e.id ≡ true → is_expired cutoff e ≡ true
    named-expired e m h =
        let r = expired_ids-Expired cutoff es e.id (within e.id h) in
        cc (ap (is_expired cutoff) (keyed r.row e r.member m r.own), r.old)

    page-absorbed :
        remove_where (is_expired cutoff) (remove_where (λ e. has_id ids e.id) es)
        ≡ remove_where (is_expired cutoff) es
    page-absorbed =
        remove_where_absorb (λ (e : Email). has_id ids e.id) (is_expired cutoff) es named-expired

    page-shortens :
        (id : ℕ)
        → has_id ids id ≡ true
        → length (remove_where (λ e. has_id ids e.id) es) < length es
    page-shortens id h =
        let r = expired_ids-Expired cutoff es id (within id h) in
        remove_where_shortens (λ (e : Email). has_id ids e.id) r.row es r.member
          (cc (ap (has_id ids) r.own, h))

  -- All expired rows do.
  page-whole :
      ((id : ℕ) → has_id ids id ≡ has_id (expired_ids cutoff es) id)
      → remove_where (λ e. has_id ids e.id) es ≡ remove_where (is_expired cutoff) es
  page-whole whole =
      remove_where_cong (λ (e : Email). has_id ids e.id) (is_expired cutoff) es
        (λ e m.
          iff-same (has_id ids e.id) (is_expired cutoff e)
            (named-expired (λ id h. cc (whole id, h)) e m)
            (λ old. cc (whole e.id, member-expired cutoff es e m old)))

  kept-IsKeyed : IsKeyed (remove_where (λ e. has_id ids e.id) es)
  kept-IsKeyed e e' m m' same =
      let p = λ (x : Email). has_id ids x.id in
      keyed e e' (kept_member p e es m) (kept_member p e' es m') same

empty_list : (ids : List ℕ) → (length ids == 0) ≡ true → ids ≡ []
empty_list [] h = refl
empty_list (x ∷ xs) h = ground (arith, h)

-- A page that is not empty names an id.
page-names : (ids : List ℕ) → (length ids == 0) ≡ false → (x : ℕ) × (has_id ids x ≡ true)
page-names [] h = cc
page-names (x ∷ xs) h = (x, ground arith)

module _ (order : List ℕ → List ℕ) (ord : IsOrder order) (cutoff : ℕ) where
  page : List Email → List ℕ
  page es = take email_log_delete_batch_size (order (expired_ids cutoff es))

  page-within :
      (es : List Email) (id : ℕ)
      → has_id (page es) id ≡ true
      → has_id (expired_ids cutoff es) id ≡ true
  unfolding page
  page-within es id h =
      let named = has_id-take email_log_delete_batch_size (order (expired_ids cutoff es)) id h in
      cc (ord.same_ids (expired_ids cutoff es) id, named)

  -- The last page is all there is.
  last_page :
      (es : List Email)
      → IsKeyed es
      → length (page es) < email_log_delete_batch_size
      → remove_where (λ e. has_id (page es) e.id) es ≡ remove_where (is_expired cutoff) es
  unfolding page
  last_page es keyed short =
      let all = take_all email_log_delete_batch_size (order (expired_ids cutoff es)) short in
      page-whole cutoff es keyed (page es)
        (λ id. ap (λ (ids : List ℕ). has_id ids id) all ∙ ord.same_ids (expired_ids cutoff es) id)

  empty_page :
      (es : List Email)
      → IsKeyed es
      → (length (page es) == 0) ≡ true
      → es ≡ remove_where (is_expired cutoff) es
  empty_page es keyed empty =
      let nothing : page es ≡ [] = empty_list (page es) empty in
      sym (none_removed es)
      ∙ ap (λ (ids : List ℕ). remove_where (λ e. has_id ids e.id) es) (sym nothing)
      ∙ last_page es keyed (rw (ap (λ (ids : List ℕ). length ids) nothing) (omega arith))

  -- Page after page, in whatever order the database returns the rows, a purge of the journal
  -- deletes exactly the rows that are older than the cutoff, as one deletion would, and touches
  -- nothing else; it ends within as many pages as there are rows, and one.
  pub purge_old_emails-deletes :
      (pages : ℕ) (w : World)
      → IsKeyed w.emails
      → length w.emails < pages
      → purge_old_emails order pages cutoff w
        ≡ some (record w { emails = remove_where (is_expired cutoff) w.emails })
  unfolding purge_old_emails page
  purge_old_emails-deletes zero w keyed few = ground (arith, few)
  purge_old_emails-deletes (suc pages) w keyed few =
      let es = w.emails in
      elim (Bool-cases (length (page es) == 0)) [
        | inl empty ↦ rw empty (
            ap (λ (kept : List Email). some (record w { emails = kept }))
              (empty_page es keyed empty))
        | inr full ↦ elim (Bool-cases (ltb (length (page es)) email_log_delete_batch_size)) [
          | inl short ↦ rw full (
              rw short (
                ap (λ (kept : List Email). some (record w { emails = kept }))
                  (last_page es keyed (ltb→lt _ _ short))))
          | inr more ↦
              let w' = delete_ids (page es) w in
              let (x, named) = page-names (page es) full in
              let shorter = page-shortens cutoff es keyed (page es) (page-within es) x named in
              rw full (
                rw more (
                  purge_old_emails-deletes pages w' (kept-IsKeyed cutoff es keyed (page es))
                    (omega (arith, shorter, few))
                  ∙ ap (λ (kept : List Email). some (record w { emails = kept }))
                      (page-absorbed cutoff es keyed (page es) (page-within es))))
        ]
      ]
