-- ===== src/Order/Domain.antt =====
-- services/order/domain/order.go. A method that mutates the order returns the new one.
use my_go_market.Prelude.{ℕ, Bool, true, false, not, Option, none, some}
use my_go_market.Prelude.Int.{ℤ, pos, leb_ℤ}
use my_go_market.Prelude.Text.{Text}
use my_go_market.Errors.{
  Result, ok, fail_if, ◌>>◌, invalid_order_amount, order_already_paid, order_not_payable,
  order_not_cancellable,
}

pub data OrderStatus : Type 0 where
  pending paid cancelled : OrderStatus

abbrev pub is_pending : OrderStatus → Bool
is_pending pending = true
is_pending _ = false

abbrev pub is_paid : OrderStatus → Bool
is_paid paid = true
is_paid _ = false

pub record Order : Type 0 where
  pub order_id : ℕ
  pub user_id : ℕ
  pub app_id : ℕ
  pub wallet_id : ℕ
  pub amount : ℤ
  pub currency_code : Text
  pub status : OrderStatus
  pub tx_id : Option ℕ
  pub subscription_id : Option ℕ
  pub idempotency_key : Text
  pub description : Text
  pub created_at : ℕ
  pub paid_at : Option ℕ
  pub updated_at : ℕ

unfoldable pub new_order :
    (id now user_id app_id wallet_id : ℕ)
    → (amount : ℤ) → (currency_code idempotency_key description : Text) → Result Order
new_order id now user_id app_id wallet_id amount currency_code idempotency_key description =
    fail_if (leb_ℤ amount (pos 0)) invalid_order_amount
    >> ok (record {
      order_id = id;
      user_id = user_id;
      app_id = app_id;
      wallet_id = wallet_id;
      amount = amount;
      currency_code = currency_code;
      status = pending;
      tx_id = none;
      subscription_id = none;
      idempotency_key = idempotency_key;
      description = description;
      created_at = now;
      paid_at = none;
      updated_at = now;
    })

unfoldable pub mark_paid : (now tx_id subscription_id : ℕ) → Order → Result Order
mark_paid now tx_id subscription_id o = do
  fail_if (is_paid o.status) order_already_paid
  fail_if (not (is_pending o.status)) order_not_payable
  ok (record o {
    status = paid;
    tx_id = some tx_id;
    subscription_id = some subscription_id;
    paid_at = some now;
    updated_at = now;
  })

unfoldable pub mark_paid_awaiting_entitlement : (now tx_id : ℕ) → Order → Result Order
mark_paid_awaiting_entitlement now tx_id o = do
  fail_if (is_paid o.status) order_already_paid
  fail_if (not (is_pending o.status)) order_not_payable
  ok (record o { status = paid; tx_id = some tx_id; paid_at = some now; updated_at = now })

unfoldable pub mark_subscription : (now subscription_id : ℕ) → Order → Order
mark_subscription now subscription_id o = record o {
  subscription_id = some subscription_id;
  updated_at = now;
}

unfoldable pub cancel : (now : ℕ) → Order → Result Order
cancel now o = do
  fail_if (not (is_pending o.status)) order_not_cancellable
  ok (record o { status = cancelled; updated_at = now })
