-- ===== src/Order/PayStates.antt =====
-- The life of an order under Pay and Purchase of order_repository.go.
use my_go_market.Prelude.{ℕ, not, some, ◌≡◌, ◌==◌, arith, ap, subst, ◌∙◌, Bool-cases, inl, inr}
use my_go_market.Prelude.Int.{ℤ}
use my_go_market.Prelude.Text.{Text}
use my_go_market.Errors.{ok, Result-cases, >>=-eq-ok, ok-injective, passed}
use my_go_market.Wallet.Change.{debit_in_tx}
use my_go_market.Table.{lookup}
use my_go_market.Order.Domain.{Order, is_paid, is_pending, mark_paid_awaiting_entitlement}
use my_go_market.Order.Store.{
  OrderModel, Shop, Draw, order_key, row_at, to_order, lock_order, update_order,
  enqueue_entitlement,
}
use my_go_market.Order.Payment.{create, settle, settled_before, by_status, pay_in_tx, pay, purchase}
use my_go_market.Order.Rows.{
  Preserves, Preserves-same, Preserves-trans, lock_order_lem, enqueue_entitlement-orders,
}
use my_go_market.Order.States.{
  transaction-Preserves, write_back, mark_paid-Evolves, mark_paid-order_id, create-Preserves,
}

module _ (uuid_string : ℕ → Text) where
  settle-Preserves :
      (draw : Draw) (m : OrderModel) (key : Text) (s : Shop) (o : Order) (s' : Shop)
      → row_at (to_order m).order_id s ≡ some m
      → settle uuid_string draw (to_order m) key s ≡ ok (o, s')
      → Preserves s s'
  unfolding settle
  settle-Preserves draw m key s o s' found h =
      let ((wt, ledger), _, h1) = >>=-eq-ok (debit_in_tx draw.payment _ _ _ _ _ s.ledger) _ h in
      let (o1, marked, h2) =
        >>=-eq-ok (mark_paid_awaiting_entitlement draw.now wt.1.tx_id (to_order m)) _ h1 in
      let (s1, queued, h3) =
        >>=-eq-ok
          (enqueue_entitlement draw.now draw.event_id (to_order m).order_id
            (record s { ledger = ledger }))
          _ h2 in
      let same : s1.orders ≡ s.orders =
        enqueue_entitlement-orders draw.now draw.event_id (to_order m).order_id
          (record s { ledger = ledger }) queued in
      let at : row_at o1.order_id s1 ≡ some m =
        ap (λ rows. lookup order_key o1.order_id rows) same
        ∙ ap (λ j. row_at j s) (mark_paid-order_id draw.now wt.1.tx_id (to_order m) marked)
        ∙ found in
      subst (Preserves s) (ap (λ p. p.1) (ok-injective h3)) (
        Preserves-trans s s1 (update_order o1 s1) (Preserves-same s s1 same)
          (write_back s1 m o1 at (mark_paid-Evolves draw.now wt.1.tx_id m marked)))

  settled_before-Preserves :
      (draw : Draw) (locked : Order) (s : Shop) (o : Order) (s' : Shop)
      → settled_before uuid_string draw locked s ≡ ok (o, s')
      → Preserves s s'
  unfolding settled_before enqueue_entitlement
  settled_before-Preserves draw locked s o s' h = Preserves-same s s' (ground arith)

  by_status-Preserves :
      (draw : Draw) (m : OrderModel) (key : Text) (s : Shop) (o : Order) (s' : Shop)
      → row_at (to_order m).order_id s ≡ some m
      → by_status uuid_string draw (to_order m) key s ≡ ok (o, s')
      → Preserves s s'
  unfolding by_status
  by_status-Preserves draw m key s o s' found h = elim (Bool-cases (is_paid (to_order m).status)) [
    | inl already ↦ settled_before-Preserves draw (to_order m) s o s' (ground arith)
    | inr not_paid ↦ elim (Bool-cases (is_pending (to_order m).status)) [
      | inl open_order ↦ settle-Preserves draw m key s o s' found (ground arith)
      | inr closed ↦ ground arith
    ]
  ]

  pay_in_tx-Preserves :
      (draw : Draw) (k u : ℕ) (key : Text) (s : Shop) (o : Order) (s' : Shop)
      → pay_in_tx uuid_string draw k u key s ≡ ok (o, s')
      → Preserves s s'
  unfolding pay_in_tx
  pay_in_tx-Preserves draw k u key s o s' h =
      let (locked, e1, h1) = >>=-eq-ok (lock_order k s) _ h in
      let (m, found, same, named) = lock_order_lem k s e1 in
      let (owned, h2) = passed (not (locked.user_id == u)) _ _ h1 in
      by_status-Preserves draw m key s o s'
        (ap (λ (x : Order). row_at x.order_id s) same ∙ ap (λ j. row_at j s) named ∙ found)
        (ap (λ x. by_status uuid_string draw x key s) same ∙ h2)

  pub pay-Preserves :
      (draw : Draw) (k u : ℕ) (key : Text) (s : Shop)
      → Preserves s (pay uuid_string draw k u key s).1
  unfolding pay
  pay-Preserves draw k u key s =
      transaction-Preserves (pay_in_tx uuid_string draw k u key) s
        (pay_in_tx-Preserves draw k u key s)

  pub purchase-Preserves :
      (draw : Draw) (u a : ℕ) (amount : ℤ) (code key description : Text) (s : Shop)
      → Preserves s (purchase uuid_string draw u a amount code key description s).1
  unfolding purchase
  purchase-Preserves draw u a amount code key description s =
      let created = create draw u a amount code key description s in
      elim (Result-cases created.0) [
        | inl (o, placed) ↦
            rw (placed, purchase)
              (Preserves-trans s created.1 (pay uuid_string draw o.order_id u key created.1).1
                (create-Preserves draw u a amount code key description s)
                (pay-Preserves draw o.order_id u key created.1))
        | inr (e, refused) ↦
            rw (refused, purchase) (create-Preserves draw u a amount code key description s)
      ]
