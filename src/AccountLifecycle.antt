-- ===== src/AccountLifecycle.antt =====
-- src/account-lifecycle: accounts that fall asleep, and accounts that are erased.
pub mod Anonymization
pub mod Inactivity
pub mod Masking
pub mod Permanence
use zendou_backend.Common.{
  ℕ, ◌+◌, ◌-◌, ◌*◌, Bool, true, false, not, ◌&&◌, Option, none, some, List, [], ◌∷◌, ◌++◌, ltb, leb,
  ◌==◌, if◌then◌else◌, length, count,
}
use zendou_backend.Common.Int.{ℤ, pos, ltb_ℤ}
use zendou_backend.Text.{Text, text, trim, starts_with, take}
use zendou_backend.Schema.{User, CreditEntry, topup, is_topup, World}
use zendou_backend.Ledger.{is_of, balance_of}
use zendou_backend.EmailAddress.{is_digit}

-- purchased-credits.ts
abbrev pub is_topup_of : ℕ → CreditEntry → Bool
is_topup_of user e = e.user_id == user && is_topup e.reason

unfoldable pub has_purchased_credits : World → ℕ → Bool
has_purchased_credits w user =
    if count (is_topup_of user) w.credit_entries == 0
    then false
    else ltb_ℤ (pos 0) (balance_of w.credit_entries user)

-- `lastActivityAt ?? createdAt`
abbrev pub last_activity : User → ℕ
last_activity u = elim u.last_activity_at [ some at ↦ at | none ↦ u.created_at ]

-- `inactiveSince(cutoff)`: the date of the last activity, or else of the creation.
abbrev pub inactive_since : ℕ → User → Bool
inactive_since cutoff u = leb (last_activity u) cutoff

-- `{ not: null, lte: before }`
abbrev pub marked_before : ℕ → Option ℕ → Bool
marked_before before none = false
marked_before before (some at) = leb at before

abbrev pub day_ms : ℕ
day_ms = 24 * 60 * 60 * 1000

abbrev pub inactivity_warning_notice_days : ℕ
inactivity_warning_notice_days = 30

abbrev pub inactivity_sweep_batch_size : ℕ
inactivity_sweep_batch_size = 500

-- `value.replace(/\D/g, '')`
unfoldable pub digits_of : Text → Text
digits_of [] = []
digits_of (c ∷ s) = let rest = digits_of s in if is_digit c then c ∷ rest else rest

-- `s.slice(-4)`
unfoldable pub last_four : Text → Text
last_four [] = []
last_four (c ∷ s) = let rest = last_four s in if leb (length (c ∷ s)) 4 then c ∷ s else rest

abbrev pub country_prefix : Text → Text → Text
country_prefix value digits =
    if starts_with (trim value) (text "+") && ltb 7 (length digits)
    then text "+" ++ take 3 digits
    else []

unfoldable pub mask_phone_number : Text → Text
unfolding last_four
mask_phone_number value =
    let digits = digits_of value in
    if leb (length digits) 4
    then text "****"
    else country_prefix value digits ++ text "****" ++ last_four digits
