-- ===== src/Order/States.antt =====
-- The life of an order under Create and CancelPendingOrder of order_repository.go, and what the marks
-- of a payment and of a cancellation may change in its row.
use my_go_market.Prelude.{
  ℕ, not, some, ◌≡◌, refl, ◌==◌, arith, ap, subst, ◌∙◌, Bool-cases, Option-cases, inl, inr,
}
use my_go_market.Prelude.Int.{ℤ}
use my_go_market.Prelude.Text.{Text, is_empty, trim_space}
use my_go_market.Errors.{
  Result, ok, err, transaction, Result-cases, transaction-ok, transaction-err, >>=-eq-ok,
  ok-injective, passed,
}
use my_go_market.Wallet.Domain.{Wallet, user}
use my_go_market.Wallet.Store.{normalize_currency, get_or_create_by_owner}
use my_go_market.Order.Domain.{Order, new_order, mark_paid_awaiting_entitlement, cancel}
use my_go_market.Order.Store.{
  OrderModel, AppModel, Shop, Draw, row_at, to_order, new_order_model, lock_order, create_order,
  written, update_order, published_app, find_by_idempotency_key,
}
use my_go_market.Order.Payment.{insert_order, place_order, create, cancel_in_tx, cancel_order}
use my_go_market.Order.Rows.{
  Evolves, Preserves, Preserves-same, lock_order_lem, update_order-Preserves,
  create_order-Preserves,
}

-- A transaction whose body preserves the orders preserves them.
pub transaction-Preserves :
    {A : Type 0} (body : Shop → Result (A × Shop)) (s : Shop)
    → ((a : A) (s' : Shop) → body s ≡ ok (a, s') → Preserves s s')
    → Preserves s (transaction body s).1
transaction-Preserves body s step = elim (Result-cases (body s)) [
  | inl ((a, s'), done) ↦ rw (transaction-ok body s done) (step a s' done)
  | inr (e, failed) ↦ rw (transaction-err body s failed) (Preserves-same s s refl)
]

-- A cancelled order was pending.
pub cancel-Evolves :
    (now : ℕ) (m : OrderModel) {o : Order}
    → cancel now (to_order m) ≡ ok o
    → Evolves m (written o m)
unfolding cancel to_order
cancel-Evolves now m h = ground arith

pub cancel-order_id :
    (now : ℕ) (o : Order) {o' : Order} → cancel now o ≡ ok o' → o'.order_id ≡ o.order_id
unfolding cancel
cancel-order_id now o h = ground arith

pub mark_paid-Evolves :
    (now tx_id : ℕ) (m : OrderModel) {o : Order}
    → mark_paid_awaiting_entitlement now tx_id (to_order m) ≡ ok o
    → Evolves m (written o m)
unfolding mark_paid_awaiting_entitlement to_order
mark_paid-Evolves now tx_id m h = ground arith

pub mark_paid-order_id :
    (now tx_id : ℕ) (o : Order) {o' : Order}
    → mark_paid_awaiting_entitlement now tx_id o ≡ ok o'
    → o'.order_id ≡ o.order_id
unfolding mark_paid_awaiting_entitlement
mark_paid-order_id now tx_id o h = ground arith

-- Writing back an order that was read from the row `m` and may follow it.
pub write_back :
    (s : Shop) (m : OrderModel) (o : Order)
    → row_at o.order_id s ≡ some m
    → Evolves m (written o m)
    → Preserves s (update_order o s)
write_back s m o found follows =
    update_order-Preserves o s (λ r e. subst (λ x. Evolves x (written o x)) (same r e) follows)
  where
    same : (r : OrderModel) → row_at o.order_id s ≡ some r → m ≡ r
    same r e = cc

cancel_in_tx-Preserves :
    (now k u : ℕ) (s : Shop) (o : Order) (s' : Shop)
    → cancel_in_tx now k u s ≡ ok (o, s')
    → Preserves s s'
unfolding cancel_in_tx
cancel_in_tx-Preserves now k u s o s' h =
    let (locked, e1, h1) = >>=-eq-ok (lock_order k s) _ h in
    let (m, found, same, named) = lock_order_lem k s e1 in
    let (owned, h2) = passed (not (locked.user_id == u)) _ _ h1 in
    let (o1, e2, h3) = >>=-eq-ok (cancel now locked) _ h2 in
    let follows : Evolves m (written o1 m) = cancel-Evolves now m (ap (cancel now) same ∙ e2) in
    let at : row_at o1.order_id s ≡ some m =
      ap (λ j. row_at j s) (cancel-order_id now locked e2 ∙ named) ∙ found in
    subst (Preserves s) (ap (λ p. p.1) (ok-injective h3)) (write_back s m o1 at follows)

pub cancel_order-Preserves : (now k u : ℕ) (s : Shop) → Preserves s (cancel_order now k u s).1
unfolding cancel_order
cancel_order-Preserves now k u s =
    transaction-Preserves (cancel_in_tx now k u) s (cancel_in_tx-Preserves now k u s)

insert_order-Preserves :
    (draw : Draw) (w : Result Wallet) (u a : ℕ) (amount : ℤ) (currency key description : Text)
    (s : Shop) (o : Order) (s' : Shop)
    → insert_order draw w u a amount currency key description s ≡ ok (o, s')
    → Preserves s s'
unfolding insert_order
insert_order-Preserves draw w u a amount currency key description s o s' h =
    let (w1, _, h1) = >>=-eq-ok w _ h in
    let (o1, _, h2) =
      >>=-eq-ok (new_order draw.order_id draw.now u a w1.id amount currency key description) _ h1 in
    let (s1, created, h3) = >>=-eq-ok (create_order (new_order_model o1) s) _ h2 in
    subst (Preserves s) (ap (λ p. p.1) (ok-injective h3))
      (create_order-Preserves (new_order_model o1) s created)

place_order-Preserves :
    (draw : Draw) (u a : ℕ) (amount : ℤ) (currency key description : Text) (s : Shop)
    (app : Result AppModel)
    → Preserves s (place_order draw u a amount currency key description s app).1
unfolding place_order
place_order-Preserves draw u a amount currency key description s (err e) = Preserves-same s s refl
place_order-Preserves draw u a amount currency key description s (ok app) =
    let (w, ledger) = get_or_create_by_owner draw.opening u user currency s.ledger in
    let s1 : Shop = record s { ledger = ledger } in
    transaction-Preserves (insert_order draw w u a amount currency key description) s1
      (insert_order-Preserves draw w u a amount currency key description s1)

pub create-Preserves :
    (draw : Draw) (u a : ℕ) (amount : ℤ) (code key description : Text) (s : Shop)
    → Preserves s (create draw u a amount code key description s).1
unfolding create
create-Preserves draw u a amount code key description s =
    let placed =
      place_order-Preserves draw u a amount (normalize_currency code) (trim_space key) description s
        (published_app a s) in
    elim (Bool-cases (is_empty (trim_space key))) [
      | inl empty ↦ rw (empty, create) placed
      | inr given ↦ elim (Option-cases (find_by_idempotency_key (trim_space key) s)) [
        | inl missing ↦ rw (given, missing, create) placed
        | inr (existing, found) ↦ rw (given, found, create) (Preserves-same s s refl)
      ]
    ]
