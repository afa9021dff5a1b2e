-- ===== src/Order/Payment.antt =====
-- services/order/repository/order_repository.go: Create, Pay, Purchase and Cancel. `uuid_string` is
-- the String method of google/uuid.
use my_go_market.Prelude.{ℕ, not, none, some, ◌++◌, ◌||◌, ◌==◌, if◌then◌else◌}
use my_go_market.Prelude.Int.{ℤ, eqb_ℤ}
use my_go_market.Prelude.Text.{Text, codes, text_eq, is_empty, trim_space}
use my_go_market.Errors.{
  Result, ok, err, order_idempotency, order_forbidden, order_not_payable, fail_if, transaction,
  ◌>>=◌, ◌>>◌,
}
use my_go_market.Wallet.Domain.{Wallet, user}
use my_go_market.Wallet.Store.{normalize_currency, get_or_create_by_owner}
use my_go_market.Wallet.Change.{debit_in_tx}
use my_go_market.Order.Domain.{
  Order, is_paid, is_pending, new_order, mark_paid_awaiting_entitlement, cancel,
}
use my_go_market.Order.Store.{
  AppModel, Shop, Draw, new_order_model, lock_order, find_by_idempotency_key, create_order,
  update_order, published_app, enqueue_entitlement,
}

-- The order that a key was used for, if it is this very order.
unfoldable pub reuse_order : Order → (user_id app_id : ℕ) → ℤ → (currency : Text) → Result Order
reuse_order existing user_id app_id amount currency =
    fail_if
      (not (existing.user_id == user_id)
        || not (existing.app_id == app_id)
        || not (eqb_ℤ existing.amount amount)
        || not (text_eq existing.currency_code currency))
      order_idempotency
    >> ok existing

-- The order and its row, for the wallet that was read.
unfoldable pub insert_order :
    Draw
    → Result Wallet
    → (user_id app_id : ℕ) → ℤ
    → (currency key description : Text) → Shop
    → Result (Order × Shop)
insert_order draw wallet user_id app_id amount currency key description s = do
  w ← wallet
  o ← new_order draw.order_id draw.now user_id app_id w.id amount currency key description
  s' ← create_order (new_order_model o) s
  ok (o, s')

-- The rest of `Create` from the read of the app on. The wallet that it opens stays where the order
-- is refused: the statements share no transaction.
unfoldable pub place_order :
    Draw
    → (user_id app_id : ℕ) → ℤ
    → (currency key description : Text) → Shop
    → Result AppModel
    → Result Order × Shop
place_order draw user_id app_id amount currency key description s (err e) = (err e, s)
place_order draw user_id app_id amount currency key description s (ok _) =
    let (wallet, ledger) = get_or_create_by_owner draw.opening user_id user currency s.ledger in
    transaction (insert_order draw wallet user_id app_id amount currency key description)
      (record s { ledger = ledger })

unfoldable pub create :
    Draw
    → (user_id app_id : ℕ) → ℤ
    → (currency_code idempotency_key description : Text) → Shop
    → Result Order × Shop
unfolding reuse_order
create draw user_id app_id amount currency_code idempotency_key description s =
    let currency = normalize_currency currency_code in
    let key = trim_space idempotency_key in
    if is_empty key
    then place_order draw user_id app_id amount currency key description s (published_app app_id s)
    else elim (find_by_idempotency_key key s) [
      | some existing ↦ (reuse_order existing user_id app_id amount currency, s)
      | none ↦
          place_order draw user_id app_id amount currency key description s (published_app app_id s)
    ]

unfoldable pub cancel_in_tx : (now order_id user_id : ℕ) → Shop → Result (Order × Shop)
cancel_in_tx now order_id user_id s = do
  locked ← lock_order order_id s
  fail_if (not (locked.user_id == user_id)) order_forbidden
  o ← cancel now locked
  ok (o, update_order o s)

-- `Cancel`
unfoldable pub cancel_order : (now order_id user_id : ℕ) → Shop → Result Order × Shop
cancel_order now order_id user_id s = transaction (cancel_in_tx now order_id user_id) s

module _ (uuid_string : ℕ → Text) where
  unfoldable pub payment_idempotency_key : (order_id : ℕ) → (idempotency_key : Text) → Text
  payment_idempotency_key order_id idempotency_key =
      let key = trim_space idempotency_key in
      if is_empty key
      then codes "order:" ++ (uuid_string order_id ++ codes ":pay")
      else codes "order:" ++ (uuid_string order_id ++ (codes ":pay:" ++ key))

  -- A pending order: the debit, the mark, the event and the row, in the source's order.
  unfoldable pub settle : Draw → Order → (idempotency_key : Text) → Shop → Result (Order × Shop)
  unfolding payment_idempotency_key
  settle draw locked idempotency_key s = do
    paid ←
        debit_in_tx draw.payment locked.wallet_id locked.amount (some locked.order_id)
          (codes "order payment") (payment_idempotency_key locked.order_id idempotency_key) s.ledger
    o ← mark_paid_awaiting_entitlement draw.now paid.0.1.tx_id locked
    s' ← enqueue_entitlement draw.now draw.event_id locked.order_id (record s { ledger = paid.1 })
    ok (o, update_order o s')

  -- A paid order is returned; one with no subscription is queued again.
  unfoldable pub settled_before : Draw → Order → Shop → Result (Order × Shop)
  settled_before draw locked s = elim locked.subscription_id [
    | some _ ↦ ok (locked, s)
    | none ↦ do s' ← enqueue_entitlement draw.now draw.event_id locked.order_id s; ok (locked, s')
  ]

  -- The tests of the status in `Pay`.
  unfoldable pub by_status : Draw → Order → (idempotency_key : Text) → Shop → Result (Order × Shop)
  by_status draw locked idempotency_key s =
      if is_paid locked.status
      then settled_before draw locked s
      else if is_pending locked.status
      then settle draw locked idempotency_key s
      else err order_not_payable

  unfoldable pub pay_in_tx :
      Draw → (order_id user_id : ℕ) → (idempotency_key : Text) → Shop → Result (Order × Shop)
  pay_in_tx draw order_id user_id idempotency_key s = do
    locked ← lock_order order_id s
    fail_if (not (locked.user_id == user_id)) order_forbidden
    by_status draw locked idempotency_key s

  unfoldable pub pay :
      Draw → (order_id user_id : ℕ) → (idempotency_key : Text) → Shop → Result Order × Shop
  pay draw order_id user_id idempotency_key s =
      transaction (pay_in_tx draw order_id user_id idempotency_key) s

  unfoldable pub purchase :
      Draw
      → (user_id app_id : ℕ) → ℤ
      → (currency_code idempotency_key description : Text) → Shop
      → Result Order × Shop
  purchase draw user_id app_id amount currency_code idempotency_key description s =
      let (r, s') = create draw user_id app_id amount currency_code idempotency_key description s in
      elim r [ err e ↦ (err e, s') | ok o ↦ pay draw o.order_id user_id idempotency_key s' ]
