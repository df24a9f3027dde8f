-- ===== src/Billing/Request.antt =====
-- When a top-up request is recorded, and what it holds.
use zendou_backend.Common.{ℕ, ◌≤◌, ◌≡◌, refl, true, none, some, [], ◌∷◌, ◌++◌, find, is_some, count}
use zendou_backend.Schema.{TopUpRequest, TopUpStatus, World}
use zendou_backend.Billing.{
  Denial, Reply, done, denied, CreditPack, find_pack, PaymentConfig, read_configured_number,
  is_digit, CreateTopUpRequestDto, is_duplicate, check_pack, store_request, create_topup_request,
}

module _ (config : PaymentConfig) (id now user : ℕ) (dto : CreateTopUpRequestDto) (w : World) where
  -- The conditions under which a request is recorded, and the row that is added.
  pub record IsRecorded (r : TopUpRequest) (w' : World) : Type 0 where
    pub pack : CreditPack
    pub listed : find_pack dto.pack_id ≡ some pack
    pub purchasable : pack.purchasable ≡ true
    pub payable : is_some (read_configured_number config dto.method) ≡ true
    pub enough_digits : 8 ≤ count is_digit dto.phone_number
    pub few_digits : count is_digit dto.phone_number ≤ 15
    pub first_pending : find (is_duplicate user dto.transaction_ref) w.topup_requests ≡ none
    pub priced : (r.credits ≡ pack.credits) × (r.amount_gnf ≡ pack.amount_gnf)
    pub waiting : r.status ≡ TopUpStatus.pending
    pub of_user : r.user_id ≡ user
    pub added : w' ≡ record w { topup_requests = w.topup_requests ++ r ∷ [] }

  record IsFit (pack : CreditPack) : Type 0 where
    purchasable : pack.purchasable ≡ true
    payable : is_some (read_configured_number config dto.method) ≡ true
    enough_digits : 8 ≤ count is_digit dto.phone_number
    few_digits : count is_digit dto.phone_number ≤ 15
    first_pending : find (is_duplicate user dto.transaction_ref) w.topup_requests ≡ none

  store-unchanged :
      (o : Reply CreditPack) (d : Denial)
      → (store_request id now user dto w o).0 ≡ denied d
      → (store_request id now user dto w o).1 ≡ w
  store-unchanged (denied d') d h = refl
  store-unchanged (done pack) d h = cc

  create_topup_request-unchanged :
      (d : Denial)
      → (create_topup_request config id now user dto w).0 ≡ denied d
      → (create_topup_request config id now user dto w).1 ≡ w
  unfolding create_topup_request
  create_topup_request-unchanged d h =
      store-unchanged (check_pack config user dto w (find_pack dto.pack_id)) d h
