-- ===== src/Emails/System/Marks.antt =====
-- What the low-balance alert reads of later states: the marks of the accounts and the last credit.
use zendou_backend.Common.{
  ℕ, ◌≡◌, refl, ap, sym, map, All, Bool, not, false, ◌&&◌, ◌++◌, [], ◌∷◌, ◌∙◌, Option, none, List,
  [], ◌∷◌, arith, ◌==◌, count,
}
use zendou_backend.Common.Int.{pos, ltb_ℤ}
use zendou_backend.Schema.{User, CreditEntry}
use zendou_backend.Ledger.{is_of}
use zendou_backend.Emails.System.{alerted_since, last_credit, may_claim}

-- The key of an account and its mark.
abbrev pub alert_mark : User → ℕ × Option ℕ
alert_mark u = (u.id, u.low_balance_alert_sent_at)

-- What may be claimed is read off the marks.
pub marks-count :
    (user at : ℕ) (us vs : List User)
    → map alert_mark us ≡ map alert_mark vs
    → count (may_claim user at) us ≡ count (may_claim user at) vs
marks-count user at us vs same = claimable us ∙ ap (count claims) same ∙ sym (claimable vs)
  where
    claims : ℕ × Option ℕ → Bool
    claims (id, sent) = id == user && not (alerted_since sent at)

    claimable : (us : List User) → count (may_claim user at) us ≡ count claims (map alert_mark us)
    claimable [] = refl
    claimable (u ∷ us) = ground (arith, claimable us)

-- A debit, or an entry of another client.
abbrev pub IsNoCredit : ℕ → CreditEntry → Type 0
IsNoCredit user e = (is_of user e && ltb_ℤ (pos 0) e.delta) ≡ false

last_credit-none :
    (user : ℕ) (es : List CreditEntry) → All (IsNoCredit user) es → last_credit user es ≡ none
unfolding last_credit
last_credit-none user [] debits = refl
last_credit-none user (e ∷ es) (debit, debits) = rw debit (last_credit-none user es debits)

pub last_credit-append :
    (user : ℕ) (es later : List CreditEntry)
    → All (IsNoCredit user) later
    → last_credit user (es ++ later) ≡ last_credit user es
unfolding last_credit
last_credit-append user [] later debits = last_credit-none user later debits
last_credit-append user (e ∷ es) later debits = rw (last_credit-append user es later debits) refl
