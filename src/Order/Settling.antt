-- ===== src/Order/Settling.antt =====
-- The debit of an order, its mark and its event in the outbox (order_repository.go, Pay).
use mathlib.Core.Option.{map}
use my_go_market.Prelude.{ℕ, some, ◌≡◌, refl, arith, ap, sym, subst, ◌∙◌, Option-cases, inl, inr}
use my_go_market.Prelude.Int.{neg}
use my_go_market.Prelude.Text.{Text}
use my_go_market.Errors.{ok}
use my_go_market.Table.{lookup, lookup-update_self}
use my_go_market.Wallet.Domain.{Wallet, Transaction, consume}
use my_go_market.Wallet.Store.{Ledger}
use my_go_market.Wallet.Posting.{Changes}
use my_go_market.Order.Domain.{pending, paid, Order, mark_paid_awaiting_entitlement}
use my_go_market.Order.Store.{
  OrderModel, Shop, Draw, EntitlementEvent, order_key, row_at, to_order, written, update_order,
  enqueue_entitlement, event_order, event_key, pending_event,
}
use my_go_market.Order.Rows.{enqueue_entitlement-orders}
use my_go_market.Order.States.{mark_paid-order_id}

-- The order has an event in the outbox.
abbrev pub Queued : ℕ → Shop → Type 0
Queued k s = (e : EntitlementEvent) × (lookup event_order k s.outbox ≡ some e)

pub enqueue_entitlement-Queued :
    (now event_id k : ℕ) (s : Shop) {s' : Shop}
    → enqueue_entitlement now event_id k s ≡ ok s'
    → Queued k s' × (s'.ledger ≡ s.ledger)
unfolding enqueue_entitlement lookup
enqueue_entitlement-Queued now event_id k s {s'} h =
    elim (Option-cases (lookup event_order k s.outbox)) [
      | inl missing ↦ elim (Option-cases (lookup event_key event_id s.outbox)) [
        | inl fresh ↦ ((pending_event now event_id k, ground arith), ground arith)
        | inr (e, clash) ↦ ground arith
      ]
      | inr (e, found) ↦ ((e, ground arith), ground arith)
    ]

pub enqueue_entitlement-again :
    (now event_id k : ℕ) (s : Shop) → Queued k s → enqueue_entitlement now event_id k s ≡ ok s
unfolding enqueue_entitlement
enqueue_entitlement-again now event_id k s (e, found) = rw (found, enqueue_entitlement)

mark_paid_lem :
    (now tx_id : ℕ) (m : OrderModel) {o : Order}
    → mark_paid_awaiting_entitlement now tx_id (to_order m) ≡ ok o
    → (o.status ≡ paid)
      × (o.tx_id ≡ some tx_id)
      × (to_order (written o m) ≡ o)
      × (m.status ≡ pending)
unfolding mark_paid_awaiting_entitlement to_order
mark_paid_lem now tx_id m h = ground arith

-- The row that is read after an order was written over the row that it was read from.
row_at-update_order :
    (o : Order) (m : OrderModel) (s : Shop)
    → row_at o.order_id s ≡ some m
    → row_at o.order_id (update_order o s) ≡ some (written o m)
unfolding update_order
row_at-update_order o m s found =
    lookup-update_self order_key o.order_id (written o) s.orders (λ r. refl)
    ∙ ap (map (written o)) found

-- The state after a pending order was paid.
pub record Settled (m : OrderModel) (key : Text) (o : Order) (s s' : Shop) : Type 0 where
  pub wallet : Wallet
  pub debit : Transaction
  pub debited : Changes m.wallet_id consume (neg m.amount) key s.ledger wallet debit s'.ledger
  pub was_pending : m.status ≡ pending
  pub is_settled : o.status ≡ paid
  pub linked : o.tx_id ≡ some debit.tx_id
  pub row : row_at o.order_id s' ≡ some (written o m)
  pub reads_back : to_order (written o m) ≡ o
  pub queued : Queued o.order_id s'

-- The three calls of a payment, put together.
pub settle_built :
    (draw : Draw) (m : OrderModel) (key : Text) (s s1 : Shop) (ledger : Ledger) (wallet : Wallet)
    (debit : Transaction) (o : Order)
    → row_at m.order_id s ≡ some m
    → Changes m.wallet_id consume (neg m.amount) key s.ledger wallet debit ledger
    → mark_paid_awaiting_entitlement draw.now debit.tx_id (to_order m) ≡ ok o
    → enqueue_entitlement draw.now draw.event_id m.order_id (record s { ledger = ledger }) ≡ ok s1
    → Settled m key o s (update_order o s1) × (o.order_id ≡ m.order_id)
unfolding to_order update_order
settle_built draw m key s s1 ledger wallet debit o found debited marked enqueued =
    let (paid_now, link, back, before) = mark_paid_lem draw.now debit.tx_id m marked in
    let (queued, kept) =
      enqueue_entitlement-Queued draw.now draw.event_id m.order_id (record s { ledger = ledger })
        enqueued in
    let same : o.order_id ≡ m.order_id =
      mark_paid-order_id draw.now debit.tx_id (to_order m) marked in
    let rows : s1.orders ≡ s.orders =
      enqueue_entitlement-orders draw.now draw.event_id m.order_id (record s { ledger = ledger })
        enqueued in
    (
      record {
        wallet = wallet;
        debit = debit;
        debited =
            subst (λ l. Changes m.wallet_id consume (neg m.amount) key s.ledger wallet debit l)
              (sym kept) debited;
        was_pending = before;
        is_settled = paid_now;
        linked = link;
        row =
            row_at-update_order o m s1
              (ap (lookup order_key o.order_id) rows ∙ ap (λ k. row_at k s) same ∙ found);
        reads_back = back;
        queued = subst (λ k. Queued k s1) (sym same) queued;
      },
      same,
    )
