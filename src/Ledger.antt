-- ===== src/Ledger.antt =====
-- The credit ledger (`CreditEntry`): its sums, as the aggregates of src/billing and src/emails
-- read them.
pub mod Laws
use zendou_backend.Common.{ℕ, Bool, List, [], ◌∷◌, ◌&&◌, ◌==◌, if◌then◌else◌}
use zendou_backend.Common.Int.{ℤ, pos, ◌+ℤ◌}
use zendou_backend.Schema.{CreditEntry, World}

-- `aggregate({ where: p, _sum: { delta: true } })._sum.delta ?? 0`
unfoldable pub sum_delta : (CreditEntry → Bool) → List CreditEntry → ℤ
sum_delta p [] = pos 0
sum_delta p (e ∷ es) = (if p e then e.delta else pos 0) +ℤ sum_delta p es

abbrev pub is_of : ℕ → CreditEntry → Bool
is_of user e = e.user_id == user

-- A client's balance: never stored, always the sum of the entries.
unfoldable pub balance_of : List CreditEntry → ℕ → ℤ
balance_of entries user = sum_delta (is_of user) entries
