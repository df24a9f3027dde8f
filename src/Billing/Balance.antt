-- ===== src/Billing/Balance.antt =====
-- The identity between the balance and its parts.
use zendou_backend.Common.{
  ℕ, ◌≡◌, refl, Bool, true, false, not, ◌&&◌, List, [], ◌∷◌, arith, if◌then◌else◌,
}
use zendou_backend.Common.Int.{ℤ, pos, negsuc, ◌+ℤ◌, ◌≤ℤ◌, int_laws, ltb_ℤ, abs, parts_of_eq}
use zendou_backend.Schema.{CreditEntry, World, is_topup}
use zendou_backend.Ledger.{sum_delta, is_of}
use zendou_backend.Billing.{is_gain, is_loss, get_balance}

abbrev share : Bool → ℤ → ℤ
share b d = if b then d else pos 0

-- The three parts of an entry's contribution add up to it.
parts_of_entry :
    (mine : Bool) (delta : ℤ) (paid : Bool)
    → share mine delta
      ≡ share (mine && ltb_ℤ (pos 0) delta && paid) delta
        +ℤ share (mine && ltb_ℤ (pos 0) delta && not paid) delta
        +ℤ share (mine && ltb_ℤ delta (pos 0)) delta
unfolding ◌+ℤ◌
parts_of_entry true (pos n) true = ground arith
parts_of_entry true (pos n) false = ground arith
parts_of_entry true (negsuc n) true = ground arith
parts_of_entry true (negsuc n) false = ground arith
parts_of_entry false delta paid = refl

loss_of_entry : (mine : Bool) (delta : ℤ) → share (mine && ltb_ℤ delta (pos 0)) delta ≤ℤ pos 0
loss_of_entry true (pos n) = ground arith
loss_of_entry true (negsuc n) = ground arith
loss_of_entry false delta = omega arith

module _ (user : ℕ) where
  abbrev bought : CreditEntry → Bool
  bought e = is_of user e && is_gain e && is_topup e.reason

  abbrev gifted : CreditEntry → Bool
  gifted e = is_of user e && is_gain e && not (is_topup e.reason)

  abbrev spent : CreditEntry → Bool
  spent e = is_of user e && is_loss e

  sum_delta-split :
      (es : List CreditEntry)
      → sum_delta (is_of user) es ≡ sum_delta bought es +ℤ sum_delta gifted es +ℤ sum_delta spent es
  unfolding sum_delta
  sum_delta-split [] = omega int_laws
  sum_delta-split (e ∷ es) = omega (
    int_laws,
    parts_of_eq _ _ (sum_delta-split es),
    parts_of_eq _ _ (parts_of_entry (is_of user e) e.delta (is_topup e.reason)),
  )

  sum_delta-spent : (es : List CreditEntry) → sum_delta spent es ≤ℤ pos 0
  unfolding sum_delta
  sum_delta-spent [] = omega arith
  sum_delta-spent (e ∷ es) =
      omega (int_laws, sum_delta-spent es, loss_of_entry (is_of user e) e.delta)

abs_of_loss : (a : ℤ) → a ≤ℤ pos 0 → pos (abs a) +ℤ a ≡ pos 0
unfolding ◌+ℤ◌
abs_of_loss (pos n) h = ground arith
abs_of_loss (negsuc n) h = ground arith

-- The balance of a client, whatever the ledger holds, is what was purchased plus what was given
-- minus what was consumed.
pub get_balance_identity :
    (user : ℕ) (w : World)
    → (get_balance user w).balance +ℤ pos (get_balance user w).total_consumed
      ≡ (get_balance user w).total_purchased +ℤ (get_balance user w).total_gifted
unfolding get_balance
get_balance_identity user w =
    rw (sum_delta-split user w.credit_entries)
      (omega (int_laws, parts_of_eq _ _ (abs_of_loss _ (sum_delta-spent user w.credit_entries))))
