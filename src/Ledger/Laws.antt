-- ===== src/Ledger/Laws.antt =====
-- Laws of the ledger's sums.
use zendou_backend.Common.{
  ℕ, ◌≡◌, ◌≢◌, Bool, false, List, [], ◌∷◌, ◌++◌, arith, ◌==◌, ==_refl, true, refl, ap, sym, ◌∙◌,
  inl, inr, Bool-cases, if◌then◌else◌, remove_where,
}
use zendou_backend.Common.Int.{ℤ, pos, ◌+ℤ◌, int_laws}
use zendou_backend.Schema.{CreditEntry}
use zendou_backend.Ledger.{sum_delta, is_of, balance_of}

zero_plus : (a : ℤ) → pos 0 +ℤ a ≡ a
zero_plus a = omega int_laws

plus_zero : (a : ℤ) → a +ℤ pos 0 ≡ a
plus_zero a = omega int_laws

pub sum_delta-append :
    (p : CreditEntry → Bool) (xs ys : List CreditEntry)
    → sum_delta p (xs ++ ys) ≡ sum_delta p xs +ℤ sum_delta p ys
unfolding sum_delta
sum_delta-append p [] ys = sym_zero
  where
    sym_zero : sum_delta p ys ≡ pos 0 +ℤ sum_delta p ys
    sym_zero = omega int_laws
sum_delta-append p (e ∷ es) ys = rw (sum_delta-append p es ys) (omega int_laws)

-- One more entry of the client moves the balance by its delta.
pub balance_of-append_own :
    (entries : List CreditEntry) (e : CreditEntry)
    → balance_of (entries ++ e ∷ []) e.user_id ≡ balance_of entries e.user_id +ℤ e.delta
unfolding balance_of sum_delta
balance_of-append_own entries e =
    rw (sum_delta-append (is_of e.user_id) entries (e ∷ [])) (rw (==_refl e.user_id) (rw plus_zero))

-- An entry of another client does not move it.
pub balance_of-append_other :
    (entries : List CreditEntry) (e : CreditEntry) (user : ℕ)
    → e.user_id ≢ user
    → balance_of (entries ++ e ∷ []) user ≡ balance_of entries user
unfolding balance_of sum_delta
balance_of-append_other entries e user h =
    rw (sum_delta-append (is_of user) entries (e ∷ [])) (
      let other : (e.user_id == user) ≡ false = ground arith in
      rw other (rw (plus_zero, plus_zero)))

-- The removal of entries that a sum does not count does not change it.
pub sum_delta-remove_other :
    (p q : CreditEntry → Bool) (es : List CreditEntry)
    → ((e : CreditEntry) → p e ≡ true → q e ≡ false)
    → sum_delta p (remove_where q es) ≡ sum_delta p es
unfolding sum_delta
sum_delta-remove_other p q [] apart = refl
sum_delta-remove_other p q (e ∷ es) apart = elim (Bool-cases (q e)) [
  | inr kept ↦
      rw kept (
        ap (λ (s : ℤ). (if p e then e.delta else pos 0) +ℤ s) (sum_delta-remove_other p q es apart))
  | inl removed ↦ elim (Bool-cases (p e)) [
    | inl counted ↦ cc (apart e counted)
    | inr other ↦
        rw (removed, other) (sum_delta-remove_other p q es apart ∙ sym (zero_plus (sum_delta p es)))
  ]
]
