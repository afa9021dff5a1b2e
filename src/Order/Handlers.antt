-- ===== src/Order/Handlers.antt =====
-- services/order/app/http_service.go: the handlers of orders, less the list, which is in
-- `Order.Queries`. `user_id` is what the authentication put into the request, a body of none is one
-- that does not bind. `uuid_string` is the String method of google/uuid.
use my_go_market.Prelude.{ℕ, not, Option, none, some, [], ◌==◌}
use my_go_market.Prelude.Int.{ℤ}
use my_go_market.Prelude.Text.{Text, codes}
use my_go_market.Errors.{
  Error, Result, record_not_found, insufficient_balance, wallet_inactive, invalid_amount,
  idempotency_conflict, invalid_order_amount, order_already_paid, order_not_payable,
  order_not_cancellable, order_forbidden, order_idempotency, app_not_found,
}
use my_go_market.Web.{
  Reply, refused, answered, ◌>>=◌, ◌>>◌, or_refuse, refuse_if, reply_with, Parsers, current_user_id,
  parse_id, parse_positive_amount,
}
use my_go_market.Order.Domain.{Order}
use my_go_market.Order.Store.{Shop, Draw, find_by_id}
use my_go_market.Order.Payment.{create, pay, purchase, cancel_order}

pub record CreateOrderRequest : Type 0 where
  pub app_id : Text
  pub amount : Text
  pub currency_code : Text
  pub idempotency_key : Text
  pub description : Text

-- The errors of `payOrderRequest`'s binding are ignored: such a body gives the empty key.
abbrev pub pay_key : (body : Option Text) → Text
pay_key none = []
pay_key (some key) = key

-- `writeOrderError`; its case of a missing wallet stands behind that of a missing order.
unfoldable pub write_order_error : Error → ℕ × Text
write_order_error record_not_found = (404, codes "ORDER_NOT_FOUND")
write_order_error app_not_found = (404, codes "APP_NOT_FOUND")
write_order_error invalid_order_amount = (400, codes "INVALID_ORDER_AMOUNT")
write_order_error order_forbidden = (403, codes "ORDER_FORBIDDEN")
write_order_error order_already_paid = (409, codes "ORDER_ALREADY_PAID")
write_order_error order_not_payable = (409, codes "ORDER_NOT_PAYABLE")
write_order_error order_not_cancellable = (409, codes "ORDER_NOT_CANCELLABLE")
write_order_error order_idempotency = (409, codes "IDEMPOTENCY_CONFLICT")
write_order_error idempotency_conflict = (409, codes "IDEMPOTENCY_CONFLICT")
write_order_error insufficient_balance = (409, codes "INSUFFICIENT_BALANCE")
write_order_error wallet_inactive = (409, codes "WALLET_INACTIVE")
write_order_error invalid_amount = (400, codes "INVALID_AMOUNT")
write_order_error _ = (500, codes "ORDER_OPERATION_FAILED")

-- A request for a new order that passed the checks.
pub record OrderCall : Type 0 where
  pub user_id : ℕ
  pub app_id : ℕ
  pub amount : ℤ
  pub body : CreateOrderRequest

abbrev pub reply_order : Result Order × Shop → Reply Order × Shop
reply_order (r, s) = (reply_with write_order_error r, s)

module _ (lib : Parsers) (uuid_string : ℕ → Text) where
  -- The checks that `CreateOrder` and `PurchaseApp` share.
  unfoldable pub check_create : (user_id : Text) → Option CreateOrderRequest → Reply OrderCall
  check_create user_id body = do
    u ← current_user_id lib user_id
    req ← or_refuse body 400 (codes "INVALID_REQUEST")
    app_id ← parse_id lib req.app_id (codes "INVALID_APP_ID")
    amount ← parse_positive_amount lib req.amount
    answered (record { user_id = u; app_id = app_id; amount = amount; body = req })

  unfoldable pub create_order_handler :
      Draw → (user_id : Text) → Option CreateOrderRequest → Shop → Reply Order × Shop
  create_order_handler draw user_id body s = elim (check_create user_id body) [
    | refused status code ↦ (refused status code, s)
    | answered c ↦ reply_order (
        create draw c.user_id c.app_id c.amount c.body.currency_code c.body.idempotency_key
          c.body.description s)
  ]

  unfoldable pub purchase_app_handler :
      Draw → (user_id : Text) → Option CreateOrderRequest → Shop → Reply Order × Shop
  purchase_app_handler draw user_id body s = elim (check_create user_id body) [
    | refused status code ↦ (refused status code, s)
    | answered c ↦ reply_order (
        purchase uuid_string draw c.user_id c.app_id c.amount c.body.currency_code
          c.body.idempotency_key c.body.description s)
  ]

  -- The user and the order that a request names.
  unfoldable pub check_order : (user_id order_id : Text) → Reply (ℕ × ℕ)
  check_order user_id order_id = do
    u ← current_user_id lib user_id
    k ← parse_id lib order_id (codes "INVALID_ORDER_ID")
    answered (u, k)

  unfoldable pub get_order_handler : (user_id order_id : Text) → Shop → Reply Order
  get_order_handler user_id order_id s = do
    ids ← check_order user_id order_id
    o ← reply_with write_order_error (find_by_id ids.1 s)
    refuse_if (not (o.user_id == ids.0)) 403 (codes "ORDER_FORBIDDEN")
    answered o

  unfoldable pub pay_order_handler :
      Draw → (user_id order_id : Text) → (body : Option Text) → Shop → Reply Order × Shop
  pay_order_handler draw user_id order_id body s = elim (check_order user_id order_id) [
    | refused status code ↦ (refused status code, s)
    | answered ids ↦ reply_order (pay uuid_string draw ids.1 ids.0 (pay_key body) s)
  ]

  unfoldable pub cancel_order_handler :
      (now : ℕ) → (user_id order_id : Text) → Shop → Reply Order × Shop
  cancel_order_handler now user_id order_id s = elim (check_order user_id order_id) [
    | refused status code ↦ (refused status code, s)
    | answered ids ↦ reply_order (cancel_order now ids.1 ids.0 s)
  ]
