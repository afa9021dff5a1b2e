-- ===== src/Order/Outbox.antt =====
-- services/order/repository/order_repository.go: the two background workers, one tick each.
use my_go_market.Prelude.{
  ℕ, ◌+◌, ◌*◌, Bool, true, false, not, Option, none, some, List, [], ◌∷◌, ◌&&◌, ltb, leb, ◌==◌,
  if◌then◌else◌, take,
}
use my_go_market.Errors.{
  Result, ok, err, event_locked, lock_failed, order_not_paid, unique_violation, fail_if,
  transaction, ◌>>=◌, ◌>>◌,
}
use my_go_market.Table.{find_by, update, where_rows, sort_by}
use my_go_market.Order.Domain.{Order, is_paid, is_pending, cancel, mark_subscription}
use my_go_market.Order.Store.{
  Shop, OrderModel, SubscriptionModel, EntitlementEvent, EventStatus, pending, processing, done,
  failed, event_key, to_order, lock_order, update_order,
}

-- What the Redis lock of an event answers.
pub data LockAnswer : Type 0 where
  acquired held broken : LockAnswer

-- What the handling of one event draws from outside.
pub record EventDraw : Type 0 where
  pub now : ℕ
  pub year_later : ℕ
  pub sub_id : ℕ
  pub lock : LockAnswer

abbrev from_order : ℕ → SubscriptionModel → Bool
from_order order_id s = elim s.source_order_id [ none ↦ false | some k ↦ k == order_id ]

-- Of two rows the one that expires later.
abbrev later_expiry : SubscriptionModel → Option SubscriptionModel → Option SubscriptionModel
later_expiry r none = some r
later_expiry r (some best) = if ltb best.expired_at r.expired_at then some r else some best

-- `ORDER BY expired_at DESC`, then `First`
unfoldable pub latest_expiry : List SubscriptionModel → Option SubscriptionModel
latest_expiry [] = none
latest_expiry (r ∷ rs) = later_expiry r (latest_expiry rs)

unfoldable pub find_subscription_by_order : ℕ → Shop → Option SubscriptionModel
find_subscription_by_order order_id s =
    latest_expiry (where_rows (from_order order_id) s.subscriptions)

abbrev sub_clashes : SubscriptionModel → SubscriptionModel → Bool
sub_clashes m row = row.sub_id == m.sub_id && row.expired_at == m.expired_at

-- PRIMARY KEY (sub_id, expired_at)
unfoldable pub create_subscription : SubscriptionModel → Shop → Result Shop
create_subscription m s = elim (find_by (sub_clashes m) s.subscriptions) [
  | some _ ↦ err unique_violation
  | none ↦ ok (record s { subscriptions = m ∷ s.subscriptions })
]

unfoldable pub grant_subscription : EventDraw → Order → Shop → Result (ℕ × Shop)
grant_subscription draw o s = elim o.subscription_id [
  | some sub_id ↦ ok (sub_id, s)
  | none ↦ elim (find_subscription_by_order o.order_id s) [
    | some existing ↦ ok (existing.sub_id, s)
    | none ↦ do
      s' ←
          create_subscription
            (record {
              sub_id = draw.sub_id;
              app_id = o.app_id;
              user_id = o.user_id;
              expired_at = draw.year_later;
              source_order_id = some o.order_id;
            })
            s
      ok (draw.sub_id, s')
  ]
]

abbrev pub set_done : (now : ℕ) → EntitlementEvent → EntitlementEvent
set_done now e = record e { status = done; has_error = false; updated_at = now }

abbrev pub set_processing : (now : ℕ) → EntitlementEvent → EntitlementEvent
set_processing now e = record e { status = processing; locked_at = some now; updated_at = now }

-- `UPDATE entitlement_outbox … WHERE event_id = ?`
abbrev pub update_event : ℕ → (EntitlementEvent → EntitlementEvent) → Shop → Shop
update_event event_id f s = record s { outbox = update event_key event_id f s.outbox }

unfoldable pub grant_in_tx : EventDraw → EntitlementEvent → Shop → Result (Unit {0} × Shop)
grant_in_tx draw event s = do
  o ← lock_order event.order_id s
  fail_if (not (is_paid o.status)) order_not_paid
  granted ← grant_subscription draw o s
  ok (
    tt,
    update_event event.event_id (set_done draw.now)
        (update_order (mark_subscription draw.now granted.0 o) granted.1),
  )

unfoldable pub process_entitlement_event :
    EventDraw → EntitlementEvent → Shop → Result (Unit {0}) × Shop
process_entitlement_event draw event s = elim draw.lock [
  | acquired ↦ transaction (grant_in_tx draw event) s
  | held ↦ (err event_locked, s)
  | broken ↦ (err lock_failed, s)
]

-- The retry count is the one read when the event was claimed; the wait is its square in seconds.
abbrev pub set_failed : (now : ℕ) → EntitlementEvent → EntitlementEvent → EntitlementEvent
set_failed now event row =
    let retry_count = event.retry_count + 1 in
    record row {
      status = failed;
      retry_count = retry_count;
      next_run_at = now + retry_count * retry_count;
      has_error = true;
      updated_at = now;
      locked_at = none;
    }

unfoldable pub mark_entitlement_event_failed : (now : ℕ) → EntitlementEvent → Shop → Shop
mark_entitlement_event_failed now event s = update_event event.event_id (set_failed now event) s

-- One round of the loop over the claimed events.
unfoldable pub handle_event : EventDraw → EntitlementEvent → Shop → Shop
handle_event draw event s =
    let (r, s') = process_entitlement_event draw event s in
    elim r [ ok _ ↦ s' | err _ ↦ mark_entitlement_event_failed draw.now event s' ]

abbrev is_open : EventStatus → Bool
is_open pending = true
is_open failed = true
is_open processing = false
is_open done = false

abbrev pub is_due : (now : ℕ) → EntitlementEvent → Bool
is_due now e = is_open e.status && leb e.next_run_at now

abbrev next_run : EntitlementEvent → ℕ
next_run e = e.next_run_at

-- The events that a tick takes, as they stood when they were read.
unfoldable pub due_events : (now limit : ℕ) → Shop → List EntitlementEvent
due_events now limit s = take limit (sort_by next_run (where_rows (is_due now) s.outbox))

unfoldable pub claim : (now : ℕ) → List EntitlementEvent → Shop → Shop
claim now [] s = s
claim now (e ∷ es) s = claim now es (update_event e.event_id (set_processing now) s)

unfoldable pub handle_events : (EntitlementEvent → EventDraw) → List EntitlementEvent → Shop → Shop
unfolding handle_event
handle_events draw [] s = s
handle_events draw (e ∷ es) s = handle_events draw es (handle_event (draw e) e s)

unfoldable pub process_entitlement_outbox_batch :
    (now limit : ℕ) → (EntitlementEvent → EventDraw) → Shop → Shop
process_entitlement_outbox_batch now limit draw s =
    let events = due_events now limit s in handle_events draw events (claim now events s)

-- `created_at < now - timeout`
abbrev pub is_expired : (now timeout : ℕ) → OrderModel → Bool
is_expired now timeout m = is_pending m.status && ltb (m.created_at + timeout) now

abbrev pub creation : OrderModel → ℕ
creation m = m.created_at

unfoldable pub cancel_rows : (now : ℕ) → List OrderModel → Shop → Shop
cancel_rows now [] s = s
cancel_rows now (m ∷ ms) s =
    cancel_rows now ms (elim (cancel now (to_order m)) [ err _ ↦ s | ok o ↦ update_order o s ])

unfoldable pub cancel_expired_pending_orders : (now timeout limit : ℕ) → Shop → Shop
unfolding cancel_rows
cancel_expired_pending_orders now timeout limit s =
    cancel_rows now (take limit (sort_by creation (where_rows (is_expired now timeout) s.orders))) s
