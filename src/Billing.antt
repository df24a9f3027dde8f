-- ===== src/Billing.antt =====
-- src/billing: the client's side of credits and top-ups (billing.service.ts, packs.ts), and the
-- admin's review of them (admin/admin-billing.service.ts, in the child `Review`).
pub mod Review
pub mod Balance
pub mod Request
pub mod Reconciliation
use zendou_backend.Common.{
  ℕ, Bool, true, false, not, ◌&&◌, ◌||◌, Option, none, some, List, [], ◌∷◌, ◌++◌, ltb, leb, ◌==◌,
  if◌then◌else◌, find, count, all, is_some,
}
use zendou_backend.Common.Int.{ℤ, pos, ltb_ℤ, abs}
use zendou_backend.Text.{Text, text, text_eq, is_blank, is_space, trim}
use zendou_backend.Schema.{
  CreditEntry, TopUpMethod, orange_money, mtn_momo, TopUpRequest, TopUpStatus, World, is_topup,
  is_pending,
}
use zendou_backend.Ledger.{sum_delta, is_of}

-- What `BillingService` and `AdminBillingService` throw.
pub data Denial : Type 0 where
  pack_not_found pack_not_purchasable invalid_method invalid_phone duplicate_transaction_ref :
      Denial
  topup_request_not_found topup_request_already_reviewed : Denial

pub data Reply (A : Type 0) : Type 0 where
  done : A → Reply A
  denied : Denial → Reply A

pub record CreditPack : Type 0 where
  pub id : Text
  pub credits : ℕ
  pub amount_gnf : ℕ
  pub purchasable : Bool

abbrev pub credit_packs : List CreditPack
credit_packs =
    record { id = text "decouverte"; credits = 1000; amount_gnf = 0; purchasable = false }
    ∷ record { id = text "starter"; credits = 15000; amount_gnf = 50000; purchasable = true }
    ∷ record { id = text "growth"; credits = 30000; amount_gnf = 90000; purchasable = true }
    ∷ []

unfoldable pub find_pack : Text → Option CreditPack
find_pack pack_id = find (λ p. text_eq p.id pack_id) credit_packs

pub record BalanceSummary : Type 0 where
  pub balance : ℤ
  pub total_purchased : ℤ
  pub total_gifted : ℤ
  pub total_consumed : ℕ

abbrev pub is_gain : CreditEntry → Bool
is_gain e = ltb_ℤ (pos 0) e.delta

abbrev pub is_loss : CreditEntry → Bool
is_loss e = ltb_ℤ e.delta (pos 0)

unfoldable pub get_balance : ℕ → World → BalanceSummary
get_balance user w = record {
  balance = sum_delta (is_of user) w.credit_entries;
  total_purchased =
      sum_delta (λ e. is_of user e && is_gain e && is_topup e.reason) w.credit_entries;
  total_gifted =
      sum_delta (λ e. is_of user e && is_gain e && not (is_topup e.reason)) w.credit_entries;
  total_consumed = abs (sum_delta (λ e. is_of user e && is_loss e) w.credit_entries);
}

-- The environment variables of PAYMENT_METHOD_ENV_KEYS.
pub record PaymentConfig : Type 0 where
  pub orange_number : Option Text
  pub mtn_number : Option Text

abbrev pub raw_number : PaymentConfig → TopUpMethod → Option Text
raw_number config orange_money = config.orange_number
raw_number config mtn_momo = config.mtn_number

unfoldable pub read_configured_string : Option Text → Option Text
read_configured_string none = none
read_configured_string (some raw) = if is_blank (trim raw) then none else some (trim raw)

abbrev pub read_configured_number : PaymentConfig → TopUpMethod → Option Text
read_configured_number config method = read_configured_string (raw_number config method)

-- PHONE_ALLOWED_CHARS_REGEX `^[0-9+\s]+$`, and 8 to 15 digits.
abbrev pub is_digit : ℕ → Bool
is_digit c = leb 48 c && leb c 57

unfoldable pub is_valid_phone_number : Text → Bool
is_valid_phone_number phone =
    not (is_blank phone)
    && all (λ c. is_digit c || c == 43 || is_space c) phone
    && leb 8 (count is_digit phone)
    && leb (count is_digit phone) 15

pub record CreateTopUpRequestDto : Type 0 where
  pub pack_id : Text
  pub method : TopUpMethod
  pub phone_number : Text
  pub transaction_ref : Text

-- A request of this client that waits, under the same reference.
abbrev pub is_duplicate : ℕ → Text → TopUpRequest → Bool
is_duplicate user ref r = r.user_id == user && text_eq r.transaction_ref ref && is_pending r.status

-- The row that is created; `id` is the key that the database generates.
abbrev pub new_request : ℕ → ℕ → ℕ → CreateTopUpRequestDto → CreditPack → TopUpRequest
new_request id now user dto pack = record {
  id = id;
  user_id = user;
  pack_id = pack.id;
  credits = pack.credits;
  amount_gnf = pack.amount_gnf;
  method = dto.method;
  phone_number = dto.phone_number;
  transaction_ref = dto.transaction_ref;
  status = TopUpStatus.pending;
  reviewed_at = none;
  reviewed_by = none;
  rejection_reason = none;
  created_at = now;
}

-- The checks of `createTopUpRequest`, in their order.
check_pack :
    PaymentConfig → ℕ → CreateTopUpRequestDto → World → Option CreditPack → Reply CreditPack
check_pack config user dto w none = denied pack_not_found
check_pack config user dto w (some pack) =
    if not pack.purchasable
    then denied pack_not_purchasable
    else if not (is_some (read_configured_number config dto.method))
    then denied invalid_method
    else if not (is_valid_phone_number dto.phone_number)
    then denied invalid_phone
    else if is_some (find (is_duplicate user dto.transaction_ref) w.topup_requests)
    then denied duplicate_transaction_ref
    else done pack

abbrev store_request :
    ℕ → ℕ → ℕ → CreateTopUpRequestDto → World → Reply CreditPack → Reply TopUpRequest × World
store_request id now user dto w (denied d) = (denied d, w)
store_request id now user dto w (done pack) = (
  done (new_request id now user dto pack),
  record w { topup_requests = w.topup_requests ++ new_request id now user dto pack ∷ [] },
)

unfoldable pub create_topup_request :
    PaymentConfig → ℕ → ℕ → ℕ → CreateTopUpRequestDto → World → Reply TopUpRequest × World
unfolding check_pack
create_topup_request config id now user dto w =
    store_request id now user dto w (check_pack config user dto w (find_pack dto.pack_id))
