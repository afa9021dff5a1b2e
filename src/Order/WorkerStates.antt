-- ===== src/Order/WorkerStates.antt =====
-- The life of an order under the two background workers of order_repository.go: the entitlement worker
-- and the one that cancels orders that were not paid in time.
use my_go_market.Prelude.{
  ℕ, not, none, some, List, [], ◌∷◌, ◌≡◌, refl, arith, ap, sym, subst, ◌∙◌, ◌⊎◌, inl, inr, ◌==◌,
  false, All, All-take, take,
}
use my_go_market.Errors.{ok, Result-cases, >>=-eq-ok, ok-injective, passed}
use my_go_market.Table.{lookup, lookup-update_ne, where_rows, sort_by, All-where_kept, All-sort_by}
use my_go_market.Table.Keyed.{
  AreKeyed, IsFound, AreKeyed-IsFound, where_rows-AreKeyed, sort_by-AreKeyed, take-AreKeyed,
}
use my_go_market.Order.Domain.{Order, is_paid, mark_subscription, cancel}
use my_go_market.Order.Store.{
  OrderModel, Shop, EntitlementEvent, order_key, row_at, to_order, lock_order, written,
  update_order,
}
use my_go_market.Order.Outbox.{
  EventDraw, LockAnswer, acquired, held, broken, create_subscription, grant_subscription,
  grant_in_tx, process_entitlement_event, mark_entitlement_event_failed, handle_event, claim,
  handle_events, due_events, process_entitlement_outbox_batch, is_expired, creation, cancel_rows,
  cancel_expired_pending_orders,
}
use my_go_market.Order.Rows.{
  Evolves, Preserves, Preserves-same, Preserves-trans, lock_order_lem, to_order-order_id,
}
use my_go_market.Order.States.{transaction-Preserves, write_back, cancel-Evolves, cancel-order_id}

-- A subscription that was found, or a new row: the orders stay.
grant_subscription-orders :
    (draw : EventDraw) (o : Order) (s : Shop) {sub : ℕ} {s' : Shop}
    → grant_subscription draw o s ≡ ok (sub, s')
    → s'.orders ≡ s.orders
unfolding grant_subscription create_subscription
grant_subscription-orders draw o s h = ground arith

grant_subscription-kept :
    (draw : EventDraw) (o : Order) (s : Shop) {sub : ℕ} {s' : Shop}
    → grant_subscription draw o s ≡ ok (sub, s')
    → (o.subscription_id ≡ none) ⊎ (o.subscription_id ≡ some sub)
unfolding grant_subscription
grant_subscription-kept draw o s h = ground arith

mark_subscription-Evolves :
    (now sub : ℕ) (m : OrderModel)
    → ((to_order m).subscription_id ≡ none) ⊎ ((to_order m).subscription_id ≡ some sub)
    → Evolves m (written (mark_subscription now sub (to_order m)) m)
unfolding mark_subscription to_order
mark_subscription-Evolves now sub m h = ground arith

mark_subscription-order_id :
    (now sub : ℕ) (o : Order) → (mark_subscription now sub o).order_id ≡ o.order_id
unfolding mark_subscription
mark_subscription-order_id now sub o = refl

grant_in_tx-Preserves :
    (draw : EventDraw) (event : EntitlementEvent) (s : Shop) (u : Unit {0}) (s' : Shop)
    → grant_in_tx draw event s ≡ ok (u, s')
    → Preserves s s'
unfolding grant_in_tx
grant_in_tx-Preserves draw event s u s' h =
    let (o, e1, h1) = >>=-eq-ok (lock_order event.order_id s) _ h in
    let (m, found, same, named) = lock_order_lem event.order_id s e1 in
    let (is_settled, h2) = passed (not (is_paid o.status)) _ _ h1 in
    let ((sub, s1), granted, h3) = >>=-eq-ok (grant_subscription draw o s) _ h2 in
    let rows : s1.orders ≡ s.orders = grant_subscription-orders draw o s granted in
    let marked : Order = mark_subscription draw.now sub o in
    let at : row_at marked.order_id s1 ≡ some m =
      ap (λ x. lookup order_key marked.order_id x) rows
      ∙ ap (λ j. row_at j s) (mark_subscription-order_id draw.now sub o ∙ named)
      ∙ found in
    let follows : Evolves m (written marked m) =
      subst (λ (x : Order). Evolves m (written (mark_subscription draw.now sub x) m)) same
        (mark_subscription-Evolves draw.now sub m (
          subst (λ (x : Order). (x.subscription_id ≡ none) ⊎ (x.subscription_id ≡ some sub))
            (sym same) (grant_subscription-kept draw o s granted))) in
    Preserves-trans s s1 s' (Preserves-same s s1 rows) (
      Preserves-trans s1 (update_order marked s1) s' (write_back s1 m marked at follows) (
        Preserves-same (update_order marked s1) s'
          (sym (ap (λ (p : Unit {0} × Shop). p.1.orders) (ok-injective h3)))))

process_entitlement_event-Preserves :
    (draw : EventDraw) (event : EntitlementEvent) (s : Shop) (lock : LockAnswer)
    → draw.lock ≡ lock
    → Preserves s (process_entitlement_event draw event s).1
unfolding process_entitlement_event
process_entitlement_event-Preserves draw event s acquired e =
    rw (e, process_entitlement_event)
      (transaction-Preserves (grant_in_tx draw event) s (grant_in_tx-Preserves draw event s))
process_entitlement_event-Preserves draw event s held e =
    rw (e, process_entitlement_event) (Preserves-same s s refl)
process_entitlement_event-Preserves draw event s broken e =
    rw (e, process_entitlement_event) (Preserves-same s s refl)

handle_event-Preserves :
    (draw : EventDraw) (event : EntitlementEvent) (s : Shop)
    → Preserves s (handle_event draw event s)
unfolding handle_event mark_entitlement_event_failed
handle_event-Preserves draw event s =
    let after = process_entitlement_event draw event s in
    let kept = process_entitlement_event-Preserves draw event s draw.lock refl in
    elim (Result-cases after.0) [
      | inl (u, done) ↦ rw (done, handle_event) kept
      | inr (e, failed) ↦
          rw (failed, handle_event)
            (Preserves-trans s after.1 (mark_entitlement_event_failed draw.now event after.1) kept
              (Preserves-same after.1 (mark_entitlement_event_failed draw.now event after.1) refl))
    ]

handle_events-Preserves :
    (draw : EntitlementEvent → EventDraw) (events : List EntitlementEvent) (s : Shop)
    → Preserves s (handle_events draw events s)
unfolding handle_events
handle_events-Preserves draw [] s = Preserves-same s s refl
handle_events-Preserves draw (e ∷ es) s =
    Preserves-trans s (handle_event (draw e) e s)
      (handle_events draw es (handle_event (draw e) e s)) (handle_event-Preserves (draw e) e s)
      (handle_events-Preserves draw es (handle_event (draw e) e s))

claim-orders :
    (now : ℕ) (events : List EntitlementEvent) (s : Shop) → (claim now events s).orders ≡ s.orders
unfolding claim
claim-orders now [] s = refl
claim-orders now (e ∷ es) s = claim-orders now es _

pub process_entitlement_outbox_batch-Preserves :
    (now limit : ℕ) (draw : EntitlementEvent → EventDraw) (s : Shop)
    → Preserves s (process_entitlement_outbox_batch now limit draw s)
unfolding process_entitlement_outbox_batch
process_entitlement_outbox_batch-Preserves now limit draw s =
    let events = due_events now limit s in
    Preserves-trans s (claim now events s) (handle_events draw events (claim now events s))
      (Preserves-same s (claim now events s) (claim-orders now events s))
      (handle_events-Preserves draw events (claim now events s))

-- Every row in the list is the one that the table has under its id.
AreCurrent : List OrderModel → Shop → Type 0
AreCurrent ms s = All (IsFound order_key s.orders) ms

-- Writing another order leaves these rows current.
update_order-AreCurrent :
    (o : Order) (s : Shop) (ms : List OrderModel)
    → All (λ (m : OrderModel). (m.order_id == o.order_id) ≡ false) ms
    → AreCurrent ms s
    → AreCurrent ms (update_order o s)
unfolding update_order AreCurrent
update_order-AreCurrent o s [] _ _ = tt
update_order-AreCurrent o s (m ∷ ms) (d, ds) (q, qs) = (
  lookup-update_ne order_key m.order_id o.order_id (written o) s.orders (λ r. refl)
        (ground (arith, d))
      ∙ q,
  update_order-AreCurrent o s ms ds qs,
)

cancel_rows-Preserves :
    (now : ℕ) (ms : List OrderModel) (s : Shop)
    → AreKeyed order_key ms
    → AreCurrent ms s
    → Preserves s (cancel_rows now ms s)
unfolding cancel_rows AreCurrent
cancel_rows-Preserves now [] s _ _ = Preserves-same s s refl
cancel_rows-Preserves now (m ∷ ms) s (d, ds) (q, qs) =
    elim (Result-cases (cancel now (to_order m))) [
      | inr (e, refused) ↦ rw (refused, cancel_rows) (cancel_rows-Preserves now ms s ds qs)
      | inl (o, done) ↦
          let named : o.order_id ≡ m.order_id =
            cancel-order_id now (to_order m) done ∙ to_order-order_id m in
          let others : All (λ (x : OrderModel). (x.order_id == o.order_id) ≡ false) ms =
            subst (λ (j : ℕ). All (λ (x : OrderModel). (x.order_id == j) ≡ false) ms) (sym named)
              d in
          rw (done, cancel_rows)
            (Preserves-trans s (update_order o s) (cancel_rows now ms (update_order o s))
              (write_back s m o (ap (λ j. row_at j s) named ∙ q) (cancel-Evolves now m done))
              (cancel_rows-Preserves now ms (update_order o s) ds
                (update_order-AreCurrent o s ms others qs)))
    ]

pub cancel_expired_pending_orders-Preserves :
    (now timeout limit : ℕ) (s : Shop)
    → Preserves s (cancel_expired_pending_orders now timeout limit s)
unfolding cancel_expired_pending_orders AreCurrent
cancel_expired_pending_orders-Preserves now timeout limit s keyed =
    let expired = where_rows (is_expired now timeout) s.orders in
    let current : All (IsFound order_key s.orders) expired =
      All-where_kept (IsFound order_key s.orders) (is_expired now timeout) s.orders
        (AreKeyed-IsFound order_key s.orders keyed) in
    cancel_rows-Preserves now (take limit (sort_by creation expired)) s
      (take-AreKeyed order_key limit (sort_by creation expired) (
        sort_by-AreKeyed order_key creation expired
          (where_rows-AreKeyed order_key (is_expired now timeout) s.orders keyed)))
      (All-take (IsFound order_key s.orders) limit (sort_by creation expired)
        (All-sort_by (IsFound order_key s.orders) creation expired current))
      keyed
