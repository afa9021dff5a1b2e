-- ===== src/Wallet/Handlers.antt =====
-- services/wallet/app/http_service.go: the handlers that change a wallet. `user_id` is what the
-- authentication put into the request, a body of none is one that does not bind.
use my_go_market.Prelude.{ℕ, Bool, not, Option, ◌==◌, ◌||◌, if◌then◌else◌}
use my_go_market.Prelude.Int.{ℤ}
use my_go_market.Prelude.Text.{Text, codes, trim_space}
use my_go_market.Errors.{
  Error, ok, err, record_not_found, insufficient_balance, wallet_inactive, invalid_amount,
  idempotency_conflict, invalid_transfer,
}
use my_go_market.Web.{
  Reply, refused, answered, ◌>>=◌, ◌>>◌, refuse_if, reply_with, Parsers, current_user_id, parse_id,
  parse_positive_amount, parse_optional_uuid,
}
use my_go_market.Wallet.Domain.{Wallet, Transaction, user, owner_type_eq}
use my_go_market.Wallet.Store.{Ledger, Env, find_wallet_by_id}
use my_go_market.Wallet.Change.{credit, debit}
use my_go_market.Wallet.Transfer.{Sides, transfer}

pub record WalletChangeRequest : Type 0 where
  pub amount : Text
  pub reference_id : Text
  pub idempotency_key : Text
  pub description : Text

pub record WalletTransferRequest : Type 0 where
  pub from_wallet_id : Text
  pub to_wallet_id : Text
  pub amount : Text
  pub reference_id : Text
  pub idempotency_key : Text
  pub description : Text

-- `writeWalletError`
unfoldable pub write_wallet_error : Error → ℕ × Text
write_wallet_error invalid_amount = (400, codes "INVALID_WALLET_OPERATION")
write_wallet_error invalid_transfer = (400, codes "INVALID_WALLET_OPERATION")
write_wallet_error insufficient_balance = (409, codes "INSUFFICIENT_BALANCE")
write_wallet_error wallet_inactive = (409, codes "WALLET_INACTIVE")
write_wallet_error idempotency_conflict = (409, codes "IDEMPOTENCY_CONFLICT")
write_wallet_error record_not_found = (404, codes "WALLET_NOT_FOUND")
write_wallet_error _ = (500, codes "WALLET_OPERATION_FAILED")

unfoldable pub ensure_owned_wallet : (wallet_id user_id : ℕ) → Ledger → Reply (Unit {0})
ensure_owned_wallet wallet_id user_id l = elim (find_wallet_by_id wallet_id l) [
  | err record_not_found ↦ refused 404 (codes "WALLET_NOT_FOUND")
  | err _ ↦ refused 500 (codes "WALLET_GET_FAILED")
  | ok w ↦
      refuse_if (not (owner_type_eq w.owner_type user) || not (w.owner_id == user_id)) 403
        (codes "WALLET_FORBIDDEN")
]

-- A request that passed the checks.
pub record ChangeCall : Type 0 where
  pub wallet_id : ℕ
  pub amount : ℤ
  pub reference_id : Option ℕ
  pub description : Text
  pub idempotency_key : Text

pub record TransferCall : Type 0 where
  pub from_wallet_id : ℕ
  pub to_wallet_id : ℕ
  pub amount : ℤ
  pub reference_id : Option ℕ
  pub description : Text
  pub idempotency_key : Text

abbrev pub body_of {ℓ} : {A : Type ℓ} → Option A → Reply A
body_of body = my_go_market.Web.or_refuse body 400 (codes "INVALID_REQUEST")

module _ (lib : Parsers) where
  unfoldable pub check_change :
      (user_id wallet_id : Text) → Option WalletChangeRequest → Ledger → Reply ChangeCall
  check_change user_id wallet_id body l = do
    u ← current_user_id lib user_id
    k ← parse_id lib wallet_id (codes "INVALID_WALLET_ID")
    ensure_owned_wallet k u l
    req ← body_of body
    amount ← parse_positive_amount lib req.amount
    ref ← parse_optional_uuid lib req.reference_id (codes "INVALID_REFERENCE_ID")
    answered (record {
      wallet_id = k;
      amount = amount;
      reference_id = ref;
      description = req.description;
      idempotency_key = trim_space req.idempotency_key;
    })

  -- `changeBalance`, a credit or a debit.
  unfoldable pub change_balance :
      Env
      → (is_credit : Bool) → (user_id wallet_id : Text) → Option WalletChangeRequest
      → Ledger
      → Reply (Wallet × Transaction) × Ledger
  change_balance env is_credit user_id wallet_id body l =
      elim (check_change user_id wallet_id body l) [
        | refused status code ↦ (refused status code, l)
        | answered call ↦
            let (r, l') =
              if is_credit
              then credit env call.wallet_id call.amount call.reference_id call.description
                  call.idempotency_key l
              else debit env call.wallet_id call.amount call.reference_id call.description
                  call.idempotency_key l in
            (reply_with write_wallet_error r, l')
      ]

  unfoldable pub check_transfer :
      (user_id : Text) → Option WalletTransferRequest → Ledger → Reply TransferCall
  check_transfer user_id body l = do
    u ← current_user_id lib user_id
    req ← body_of body
    from ← parse_id lib req.from_wallet_id (codes "INVALID_WALLET_ID")
    to ← parse_id lib req.to_wallet_id (codes "INVALID_WALLET_ID")
    amount ← parse_positive_amount lib req.amount
    ref ← parse_optional_uuid lib req.reference_id (codes "INVALID_REFERENCE_ID")
    ensure_owned_wallet from u l
    answered (record {
      from_wallet_id = from;
      to_wallet_id = to;
      amount = amount;
      reference_id = ref;
      description = req.description;
      idempotency_key = trim_space req.idempotency_key;
    })

  -- `Transfer`
  unfoldable pub transfer_handler :
      Env → (user_id : Text) → Option WalletTransferRequest → Ledger → Reply Sides × Ledger
  transfer_handler env user_id body l = elim (check_transfer user_id body l) [
    | refused status code ↦ (refused status code, l)
    | answered call ↦
        let (r, l') =
          transfer env call.from_wallet_id call.to_wallet_id call.amount call.reference_id
            call.description call.idempotency_key l in
        (reply_with write_wallet_error r, l')
  ]
