-- ===== src/Order/Store.antt =====
-- services/order/repository/order_repository.go: the rows of the tables that orders use, and the
-- single statements over them.
use my_go_market.Prelude.{
  ℕ, Bool, false, Option, none, some, List, [], ◌∷◌, ◌&&◌, ◌||◌, ◌==◌, take, drop,
}
use my_go_market.Prelude.Int.{ℤ}
use my_go_market.Prelude.Text.{Text}
use my_go_market.Errors.{Result, ok, err, record_not_found, unique_violation, app_not_found}
use my_go_market.Table.{find_by, lookup, update, where_rows}
use my_go_market.Wallet.Store.{Ledger, Env, stored_key, key_or_empty, key_matches}
use my_go_market.Order.Domain.{OrderStatus, Order}

pub record OrderModel : Type 0 where
  pub order_id : ℕ
  pub user_id : ℕ
  pub app_id : ℕ
  pub wallet_id : ℕ
  pub amount : ℤ
  pub currency_code : Text
  pub status : OrderStatus
  pub tx_id : Option ℕ
  pub subscription_id : Option ℕ
  pub idempotency_key : Option Text
  pub description : Text
  pub created_at : ℕ
  pub paid_at : Option ℕ
  pub updated_at : ℕ

-- The columns of apps that an order reads; `is_published` is status = 'published'.
pub record AppModel : Type 0 where
  pub app_id : ℕ
  pub is_published : Bool

-- plan_type is always "purchase" and status always "active" here.
pub record SubscriptionModel : Type 0 where
  pub sub_id : ℕ
  pub app_id : ℕ
  pub user_id : ℕ
  pub expired_at : ℕ
  pub source_order_id : Option ℕ

pub data EventStatus : Type 0 where
  pending processing done failed : EventStatus

pub record EntitlementEvent : Type 0 where
  pub event_id : ℕ
  pub order_id : ℕ
  pub status : EventStatus
  pub retry_count : ℕ
  pub next_run_at : ℕ
  pub has_error : Bool
  pub locked_at : Option ℕ
  pub created_at : ℕ
  pub updated_at : ℕ

-- The tables that the order repository reads and writes.
pub record Shop : Type 0 where
  pub ledger : Ledger
  pub apps : List AppModel
  pub orders : List OrderModel
  pub subscriptions : List SubscriptionModel
  pub outbox : List EntitlementEvent

-- What one request draws from outside: the time, a year later, and fresh ids.
pub record Draw : Type 0 where
  pub now : ℕ
  pub year_later : ℕ
  pub order_id : ℕ
  pub event_id : ℕ
  pub sub_id : ℕ
  pub opening : Env
  pub payment : Env

abbrev pub order_key : OrderModel → ℕ
order_key m = m.order_id

abbrev pub event_key : EntitlementEvent → ℕ
event_key e = e.event_id

abbrev pub event_order : EntitlementEvent → ℕ
event_order e = e.order_id

unfoldable pub new_order_model : Order → OrderModel
new_order_model o = record {
  order_id = o.order_id;
  user_id = o.user_id;
  app_id = o.app_id;
  wallet_id = o.wallet_id;
  amount = o.amount;
  currency_code = o.currency_code;
  status = o.status;
  tx_id = o.tx_id;
  subscription_id = o.subscription_id;
  idempotency_key = stored_key o.idempotency_key;
  description = o.description;
  created_at = o.created_at;
  paid_at = o.paid_at;
  updated_at = o.updated_at;
}

unfoldable pub to_order : OrderModel → Order
to_order m = record {
  order_id = m.order_id;
  user_id = m.user_id;
  app_id = m.app_id;
  wallet_id = m.wallet_id;
  amount = m.amount;
  currency_code = m.currency_code;
  status = m.status;
  tx_id = m.tx_id;
  subscription_id = m.subscription_id;
  idempotency_key = key_or_empty m.idempotency_key;
  description = m.description;
  created_at = m.created_at;
  paid_at = m.paid_at;
  updated_at = m.updated_at;
}

abbrev pub row_at : ℕ → Shop → Option OrderModel
row_at k s = lookup order_key k s.orders

abbrev read_order : Option OrderModel → Result Order
read_order none = err record_not_found
read_order (some m) = ok (to_order m)

unfoldable pub find_by_id : ℕ → Shop → Result Order
find_by_id order_id s = read_order (row_at order_id s)

-- The same row; the lock is the serialisation of transactions on one order.
unfoldable pub lock_order : ℕ → Shop → Result Order
lock_order order_id s = read_order (row_at order_id s)

abbrev pub order_has_key : Text → OrderModel → Bool
order_has_key key m = key_matches key m.idempotency_key

-- `none` is gorm.ErrRecordNotFound.
unfoldable pub find_by_idempotency_key : Text → Shop → Option Order
find_by_idempotency_key key s = elim (find_by (order_has_key key) s.orders) [
  | none ↦ none
  | some m ↦ some (to_order m)
]

abbrev pub of_user : ℕ → OrderModel → Bool
of_user user_id m = m.user_id == user_id

unfoldable pub orders_of : List OrderModel → List Order
orders_of [] = []
orders_of (m ∷ ms) = to_order m ∷ orders_of ms

-- The rows stand newest first.
unfoldable pub list_by_user : (user_id limit offset : ℕ) → Shop → List Order
unfolding orders_of
list_by_user user_id limit offset s =
    orders_of (take limit (drop offset (where_rows (of_user user_id) s.orders)))

abbrev pub order_clashes : OrderModel → OrderModel → Bool
order_clashes m row =
    row.order_id == m.order_id
    || (elim m.idempotency_key [ none ↦ false | some key ↦ order_has_key key row ])

-- PRIMARY KEY (order_id) and the unique index on non-empty keys
unfoldable pub create_order : OrderModel → Shop → Result Shop
create_order m s = elim (find_by (order_clashes m) s.orders) [
  | some _ ↦ err unique_violation
  | none ↦ ok (record s { orders = m ∷ s.orders })
]

abbrev pub written : Order → OrderModel → OrderModel
written o row = record row {
  status = o.status;
  tx_id = o.tx_id;
  subscription_id = o.subscription_id;
  paid_at = o.paid_at;
  updated_at = o.updated_at;
}

unfoldable pub update_order : Order → Shop → Shop
update_order o s = record s { orders = update order_key o.order_id (written o) s.orders }

abbrev published : ℕ → AppModel → Bool
published app_id a = a.app_id == app_id && a.is_published

unfoldable pub published_app : ℕ → Shop → Result AppModel
published_app app_id s = elim (find_by (published app_id) s.apps) [
  | none ↦ err app_not_found
  | some a ↦ ok a
]

-- The values of the insert into entitlement_outbox.
abbrev pub pending_event : (now event_id order_id : ℕ) → EntitlementEvent
pending_event now event_id order_id = record {
  event_id = event_id;
  order_id = order_id;
  status = pending;
  retry_count = 0;
  next_run_at = now;
  has_error = false;
  locked_at = none;
  created_at = now;
  updated_at = now;
}

-- `ON CONFLICT (order_id) DO NOTHING`; another event's id is refused.
unfoldable pub enqueue_entitlement : (now event_id order_id : ℕ) → Shop → Result Shop
enqueue_entitlement now event_id order_id s = elim (lookup event_order order_id s.outbox) [
  | some _ ↦ ok s
  | none ↦ elim (lookup event_key event_id s.outbox) [
    | some _ ↦ err unique_violation
    | none ↦ ok (record s { outbox = pending_event now event_id order_id ∷ s.outbox })
  ]
]
