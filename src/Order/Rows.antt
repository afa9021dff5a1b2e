-- ===== src/Order/Rows.antt =====
-- How the row of an order may change (order.go and order_repository.go): what every statement over
-- the table of orders keeps.
use mathlib.Core.Option
use my_go_market.Prelude.{
  ℕ, none, some, List, [], ◌∷◌, ◌≡◌, refl, ◌==◌, arith, ap, sym, ◌∙◌, Bool-cases, Option-cases, ◌⊎◌,
  inl, inr, ==_iff, subst,
}
use my_go_market.Errors.{ok}
use my_go_market.Table.{find_by, lookup, update, lookup-key, lookup-update_self, lookup-update_ne}
use my_go_market.Table.Keyed.{AreKeyed, update-AreKeyed, lookup-none}
use my_go_market.Order.Domain.{pending, Order}
use my_go_market.Order.Store.{
  OrderModel, Shop, order_key, row_at, to_order, lock_order, order_clashes, create_order, written,
  update_order, enqueue_entitlement,
}

-- A later state of the same order: what it was placed for stays; a status other than pending
-- stays, with its payment; a subscription once set stays.
pub record Evolves (m m' : OrderModel) : Type 0 where
  pub same_user : m'.user_id ≡ m.user_id
  pub same_app : m'.app_id ≡ m.app_id
  pub same_wallet : m'.wallet_id ≡ m.wallet_id
  pub same_amount : m'.amount ≡ m.amount
  pub same_currency : m'.currency_code ≡ m.currency_code
  pub same_key : m'.idempotency_key ≡ m.idempotency_key
  pub settled :
      (m.status ≡ pending)
      ⊎ ((m'.status ≡ m.status) × (m'.tx_id ≡ m.tx_id) × (m'.paid_at ≡ m.paid_at))
  pub subscribed : (m.subscription_id ≡ none) ⊎ (m'.subscription_id ≡ m.subscription_id)

pub Evolves-refl : (m : OrderModel) → Evolves m m
Evolves-refl m = ground arith

pub Evolves-trans : {a b c : OrderModel} → Evolves a b → Evolves b c → Evolves a c
Evolves-trans p q = ground arith

-- The ids of the orders differ, as the primary key has it.
abbrev pub IsKeyed : Shop → Type 0
IsKeyed s = AreKeyed order_key s.orders

-- From orders whose ids differ: they still differ, and every order of `s` is still there in `s'`.
abbrev pub Preserves : Shop → Shop → Type 0
Preserves s s' =
    IsKeyed s
    → IsKeyed s'
      × ((k : ℕ) (m : OrderModel)
          → row_at k s ≡ some m
          → (m' : OrderModel) × (row_at k s' ≡ some m') × Evolves m m')

pub Preserves-same : (s s' : Shop) → s'.orders ≡ s.orders → Preserves s s'
Preserves-same s s' same keyed = (
  subst (AreKeyed order_key) (sym same) keyed,
  λ k m found. (m, ap (lookup order_key k) same ∙ found, Evolves-refl m),
)

pub Preserves-trans : (s t u : Shop) → Preserves s t → Preserves t u → Preserves s u
Preserves-trans s t u p q keyed =
    let (keyed_t, rows_t) = p keyed in
    let (keyed_u, rows_u) = q keyed_t in
    (
      keyed_u,
      λ k m found.
          let (m1, e1, v1) = rows_t k m found in
          let (m2, e2, v2) = rows_u k m1 e1 in (m2, e2, Evolves-trans v1 v2),
    )

pub to_order-order_id : (m : OrderModel) → (to_order m).order_id ≡ m.order_id
unfolding to_order
to_order-order_id m = refl

pub lock_order_lem :
    (k : ℕ) (s : Shop) {o : Order}
    → lock_order k s ≡ ok o
    → (m : OrderModel) × (row_at k s ≡ some m) × (to_order m ≡ o) × (o.order_id ≡ k)
unfolding lock_order
lock_order_lem k s {o} h = elim (Option-cases (row_at k s)) [
  | inl missing ↦ ground arith
  | inr (m, found) ↦
      let same : to_order m ≡ o = ground arith in
      (
        m,
        found,
        same,
        ap (λ (x : Order). x.order_id) (sym same)
            ∙ to_order-order_id m
            ∙ lookup-key order_key k s.orders found,
      )
]

update_order-row :
    (o : Order) (s : Shop)
    → ((m : OrderModel) → row_at o.order_id s ≡ some m → Evolves m (written o m))
    → (k : ℕ) (m : OrderModel) → row_at k s ≡ some m
    → (m' : OrderModel) × (row_at k (update_order o s) ≡ some m') × Evolves m m'
unfolding update_order
update_order-row o s may k m found = elim (Bool-cases (o.order_id == k)) [
  | inl same ↦
      let e : o.order_id ≡ k = (==_iff o.order_id k).0 same in
      (
        written o m,
        ap (λ j. lookup order_key k (update order_key j (written o) s.orders)) e
            ∙ lookup-update_self order_key k (written o) s.orders (λ r. refl)
            ∙ ap (Option.map (written o)) found,
        may m (ap (λ j. row_at j s) e ∙ found),
      )
  | inr other ↦ (
    m,
    lookup-update_ne order_key k o.order_id (written o) s.orders (λ r. refl) (ground arith) ∙ found,
    Evolves-refl m,
  )
]

-- Writing an order is safe where it may follow the row that it overwrites.
pub update_order-Preserves :
    (o : Order) (s : Shop)
    → ((m : OrderModel) → row_at o.order_id s ≡ some m → Evolves m (written o m))
    → Preserves s (update_order o s)
unfolding update_order
update_order-Preserves o s may keyed = (
  update-AreKeyed order_key o.order_id (written o) s.orders (λ r. refl) keyed,
  update_order-row o s may,
)

new_order_id :
    (m : OrderModel) (ms : List OrderModel)
    → find_by (order_clashes m) ms ≡ none
    → lookup order_key m.order_id ms ≡ none
unfolding find_by lookup
new_order_id m [] h = refl
new_order_id m (v ∷ ms) h = ground (arith, new_order_id m ms)

pub create_order-Preserves :
    (m : OrderModel) (s : Shop) {s' : Shop} → create_order m s ≡ ok s' → Preserves s s'
unfolding create_order lookup
create_order-Preserves m s {s'} h keyed = elim (Option-cases (find_by (order_clashes m) s.orders)) [
  | inl fresh ↦
      let missing = new_order_id m s.orders fresh in
      let e : m ∷ s.orders ≡ s'.orders = ground arith in
      (
        subst (AreKeyed order_key) e (lookup-none order_key m.order_id s.orders missing, keyed),
        λ k r found. (r, ground (arith, missing), Evolves-refl r),
      )
  | inr (row, clash) ↦ absurd (ground arith)
]

pub enqueue_entitlement-orders :
    (now event_id order_id : ℕ) (s : Shop) {s' : Shop}
    → enqueue_entitlement now event_id order_id s ≡ ok s'
    → s'.orders ≡ s.orders
unfolding enqueue_entitlement
enqueue_entitlement-orders now event_id order_id s h = ground arith
