-- ===== src/Order/Settlement.antt =====
-- Proofs about the payment of an order (order_repository.go, Pay), and a second payment.
use my_go_market.Prelude.{
  ℕ, true, not, none, some, ◌≡◌, refl, ◌==◌, arith, ap, sym, subst, ◌∙◌, Bool-cases, Option-cases,
  inl, inr, ==_iff,
}
use my_go_market.Prelude.Int.{neg}
use my_go_market.Prelude.Text.{Text, codes}
use my_go_market.Errors.{
  order_forbidden, ◌>>=◌, Result, ok, transaction, transaction-ok, transaction-eq-ok, >>=-eq-ok,
  ok-injective, passed,
}
use my_go_market.Wallet.Domain.{consume}
use my_go_market.Wallet.Change.{debit_in_tx}
use my_go_market.Wallet.Ledger.{IsSound}
use my_go_market.Wallet.Posting.{apply_wallet_change_in_tx_lem, Changes-IsSound}
use my_go_market.Order.Domain.{
  OrderStatus, pending, paid, Order, is_paid, is_pending, mark_paid_awaiting_entitlement,
}
use my_go_market.Order.Store.{
  OrderModel, Shop, Draw, row_at, to_order, lock_order, update_order, enqueue_entitlement,
}
use my_go_market.Order.Payment.{
  payment_idempotency_key, settle, settled_before, by_status, pay_in_tx, pay,
}
use my_go_market.Order.Rows.{lock_order_lem, enqueue_entitlement-orders}
use my_go_market.Order.Settling.{
  Queued, enqueue_entitlement-Queued, enqueue_entitlement-again, Settled, settle_built,
}

is_paid-eq : (st : OrderStatus) → is_paid st ≡ true → st ≡ paid
is_paid-eq st h = ground arith

module _ (uuid_string : ℕ → Text) where
  settle_lem :
      (draw : Draw) (m : OrderModel) (key : Text) (s : Shop) {o : Order} {s' : Shop}
      → IsSound s.ledger
      → row_at (to_order m).order_id s ≡ some m
      → settle uuid_string draw (to_order m) key s ≡ ok (o, s')
      → Settled m (payment_idempotency_key uuid_string (to_order m).order_id key) o s s'
        × (o.order_id ≡ (to_order m).order_id)
  unfolding settle debit_in_tx to_order update_order
  settle_lem draw m key s {o} {s'} sound found h =
      let ((paid_now, ledger), debited, h1) =
        >>=-eq-ok
          (debit_in_tx draw.payment m.wallet_id m.amount (some m.order_id) (codes "order payment")
            (payment_idempotency_key uuid_string m.order_id key) s.ledger)
          _ h in
      let (o1, marked, h2) =
        >>=-eq-ok (mark_paid_awaiting_entitlement draw.now paid_now.1.tx_id (to_order m)) _ h1 in
      let (s1, enqueued, h3) =
        >>=-eq-ok
          (enqueue_entitlement draw.now draw.event_id m.order_id (record s { ledger = ledger })) _
          h2 in
      subst
        (λ (r : Order × Shop).
          Settled m (payment_idempotency_key uuid_string m.order_id key) r.0 s r.1
          × (r.0.order_id ≡ m.order_id))
        (ok-injective h3)
        (settle_built draw m (payment_idempotency_key uuid_string m.order_id key) s s1 ledger
          paid_now.0 paid_now.1 o1 found
          (apply_wallet_change_in_tx_lem draw.payment m.wallet_id consume (neg m.amount)
            (some m.order_id) (codes "order payment")
            (payment_idempotency_key uuid_string m.order_id key) s.ledger sound debited)
          marked enqueued)

  -- The call that a payment ends in, where it succeeds.
  pay_steps :
      (draw : Draw) (k user_id : ℕ) (key : Text) (s : Shop) {o : Order} {s' : Shop}
      → pay uuid_string draw k user_id key s ≡ (ok o, s')
      → (m : OrderModel) × (row_at k s ≡ some m)
        × ((to_order m).order_id ≡ k)
        × (((to_order m).user_id == user_id) ≡ true)
        × (by_status uuid_string draw (to_order m) key s ≡ ok (o, s'))
  unfolding pay pay_in_tx
  pay_steps draw k user_id key s {o} {s'} h =
      let (locked, took, h1) = >>=-eq-ok (lock_order k s) _ (pay_body-ok h) in
      let (m, found, same, named) = lock_order_lem k s took in
      let (own, h2) = passed (not (locked.user_id == user_id)) order_forbidden _ h1 in
      (m, found, rw same named, rw same (ground (arith, own)), rw same h2)
    where
      pay_body-ok :
          transaction (pay_in_tx uuid_string draw k user_id key) s ≡ (ok o, s')
          → pay_in_tx uuid_string draw k user_id key s ≡ ok (o, s')
      pay_body-ok h = transaction-eq-ok (pay_in_tx uuid_string draw k user_id key) s h

  by_status-pending :
      (draw : Draw) (m : OrderModel) (key : Text) (s : Shop) {r : Result (Order × Shop)}
      → m.status ≡ pending
      → by_status uuid_string draw (to_order m) key s ≡ r
      → settle uuid_string draw (to_order m) key s ≡ r
  unfolding by_status to_order
  by_status-pending draw m key s p h = ground (arith, p)

  -- Paying the pending order of a sound ledger, where it succeeds, was asked for by the order's
  -- user; it debits the order's wallet by the order's amount, or finds that very debit recorded
  -- under the payment's key; it leaves the order's row paid, linked to the debit, and with an event
  -- in the outbox; and the ledger stays sound.
  pub pay_settles :
      (draw : Draw) (k user_id : ℕ) (key : Text) (s : Shop) (m : OrderModel) {o : Order} {s' : Shop}
      → IsSound s.ledger
      → row_at k s ≡ some m
      → m.status ≡ pending
      → pay uuid_string draw k user_id key s ≡ (ok o, s')
      → Settled m (payment_idempotency_key uuid_string k key) o s s'
        × (o.order_id ≡ k)
        × (m.user_id ≡ user_id)
        × IsSound s'.ledger
  unfolding to_order
  pay_settles draw k user_id key s m {o} {s'} sound found before h =
      let (m', found', same', own', h1') = pay_steps draw k user_id key s h in
      let e : m' ≡ m = cc in
      let same : m.order_id ≡ k = ap (λ (x : OrderModel). x.order_id) (sym e) ∙ same' in
      let own : (m.user_id == user_id) ≡ true = rw (sym e) own' in
      let h1 : by_status uuid_string draw (to_order m) key s ≡ ok (o, s') =
        subst (λ x. by_status uuid_string draw (to_order x) key s ≡ ok (o, s')) e h1' in
      let (settled, named) =
        settle_lem draw m key s sound (ap (λ j. row_at j s) same ∙ found)
          (by_status-pending draw m key s before h1) in
      (
        subst (λ j. Settled m (payment_idempotency_key uuid_string j key) o s s') same settled,
        named ∙ same,
        (==_iff m.user_id user_id).0 own,
        Changes-IsSound sound settled.debited,
      )

  -- An order as a payment leaves it.
  pub record PaidBy (user_id : ℕ) (o : Order) (s : Shop) : Type 0 where
    pub read : lock_order o.order_id s ≡ ok o
    pub is_settled : o.status ≡ paid
    pub own : o.user_id ≡ user_id
    pub queued : o.subscription_id ≡ none → Queued o.order_id s

  settled_before-again :
      (draw : Draw) (user_id : ℕ) (o : Order) (s : Shop)
      → PaidBy user_id o s
      → settled_before uuid_string draw o s ≡ ok (o, s)
  unfolding settled_before
  settled_before-again draw user_id o s p = elim (Option-cases o.subscription_id) [
    | inl missing ↦
        ground
          (arith, enqueue_entitlement-again draw.now draw.event_id o.order_id s (p.queued missing))
    | inr (k, found) ↦ ground arith
  ]

  pay-PaidBy :
      (draw : Draw) (k user_id : ℕ) (key : Text) (s : Shop) (o : Order)
      → PaidBy user_id o s
      → pay uuid_string draw o.order_id user_id key s ≡ (ok o, s)
  unfolding pay pay_in_tx by_status
  pay-PaidBy draw k user_id key s o p =
      transaction-ok (pay_in_tx uuid_string draw o.order_id user_id key) s
        (rw p.read (ground (arith, p.own, p.is_settled, settled_before-again draw user_id o s p)))

  Settled-PaidBy :
      (m : OrderModel) (key : Text) (o : Order) (s s' : Shop)
      → Settled m key o s s'
      → PaidBy m.user_id o s'
  unfolding lock_order to_order
  Settled-PaidBy m key o s s' st = record {
    read = ground (arith, st.row, st.reads_back);
    is_settled = st.is_settled;
    own = sym (ap (λ (x : Order). x.user_id) st.reads_back);
    queued = λ _. st.queued;
  }

  settled_before-PaidBy :
      (draw : Draw) (k : ℕ) (x : Order) (s : Shop) {o : Order} {s' : Shop}
      → lock_order x.order_id s ≡ ok x
      → x.status ≡ paid
      → settled_before uuid_string draw x s ≡ ok (o, s')
      → PaidBy x.user_id o s' × (o ≡ x)
  unfolding settled_before lock_order
  settled_before-PaidBy draw k x s {o} {s'} read before h = elim (Option-cases x.subscription_id) [
    | inl missing ↦
        let h1 : (enqueue_entitlement draw.now draw.event_id x.order_id s >>= (λ s1. ok (x, s1)))
            ≡ ok (o, s') =
          ground arith in
        let (s1, enqueued, h2) =
          >>=-eq-ok (enqueue_entitlement draw.now draw.event_id x.order_id s) _ h1 in
        let rows = enqueue_entitlement-orders draw.now draw.event_id x.order_id s enqueued in
        subst (λ (r : Order × Shop). PaidBy x.user_id r.0 r.1 × (r.0 ≡ x)) (ok-injective h2)
          ((
            record {
              read = rw rows read;
              is_settled = before;
              own = refl;
              queued =
                  λ _. (enqueue_entitlement-Queued draw.now draw.event_id x.order_id s enqueued).0;
            },
            refl,
          ))
    | inr (j, found) ↦
        let h1 : ok (x, s) ≡ ok (o, s') = ground arith in
        subst (λ (r : Order × Shop). PaidBy x.user_id r.0 r.1 × (r.0 ≡ x)) (ok-injective h1)
          ((
            record {
              read = read;
              is_settled = before;
              own = refl;
              queued = λ none_here. ground arith;
            },
            refl,
          ))
  ]

  pub pay-makes-PaidBy :
      (draw : Draw) (k user_id : ℕ) (key : Text) (s : Shop) {o : Order} {s' : Shop}
      → IsSound s.ledger
      → pay uuid_string draw k user_id key s ≡ (ok o, s')
      → PaidBy user_id o s' × (o.order_id ≡ k)
  unfolding by_status lock_order to_order
  pay-makes-PaidBy draw k user_id key s {o} {s'} sound h =
      let (m, found, same, own, h1) = pay_steps draw k user_id key s h in
      let mine = (==_iff (to_order m).user_id user_id).0 own in
      elim (Bool-cases (is_paid (to_order m).status)) [
        | inl before ↦
            let h2 : settled_before uuid_string draw (to_order m) s ≡ ok (o, s') = ground arith in
            let (p, kept) =
              settled_before-PaidBy draw k (to_order m) s (rw same (ground (arith, found)))
                (is_paid-eq (to_order m).status before) h2 in
            (subst (λ u. PaidBy u o s') mine p, ap (λ (x : Order). x.order_id) kept ∙ same)
        | inr unpaid ↦ elim (Bool-cases (is_pending (to_order m).status)) [
          | inl waiting ↦
              let h2 : settle uuid_string draw (to_order m) key s ≡ ok (o, s') = ground arith in
              let (settled, named) = settle_lem draw m key s sound (rw same found) h2 in
              (subst (λ u. PaidBy u o s') mine (Settled-PaidBy m _ o s s' settled), named ∙ same)
          | inr other ↦ ground arith
        ]
      ]

  -- A payment that succeeded on a sound ledger can be repeated by the same user, at any time and
  -- under any key, and then returns the same order and changes nothing: no second debit, no
  -- second event, no write.
  pub pay_again :
      (draw draw' : Draw) (k user_id : ℕ) (key key' : Text) (s : Shop) {o : Order} {s' : Shop}
      → IsSound s.ledger
      → pay uuid_string draw k user_id key s ≡ (ok o, s')
      → pay uuid_string draw' k user_id key' s' ≡ (ok o, s')
  pay_again draw draw' k user_id key key' s {o} {s'} sound h =
      let (p, named) = pay-makes-PaidBy draw k user_id key s sound h in
      subst (λ j. pay uuid_string draw' j user_id key' s' ≡ (ok o, s')) named
        (pay-PaidBy draw' k user_id key' s' o p)
