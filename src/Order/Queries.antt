-- ===== src/Order/Queries.antt =====
-- services/order/app/http_service.go: ListOrders, and whose orders it lists.
use my_go_market.Prelude.{
  ℕ, zero, suc, List, [], ◌∷◌, ◌≡◌, ◌==◌, ◌≤◌, inl, inr, arith, Bool-cases, ==_iff, All, take, drop,
  length, subst, ap,
}
use my_go_market.Prelude.Int.{ℤ}
use my_go_market.Prelude.Text.{Text}
use my_go_market.Table.{where_rows}
use my_go_market.Web.{
  Reply, answered, ◌>>=◌, Parsers, current_user_id, pagination, page_offset, page_limit, IsUser,
  answered-bind, answered-injective,
}
use my_go_market.Order.Domain.{Order}
use my_go_market.Order.Store.{OrderModel, Shop, of_user, orders_of, to_order, list_by_user}

-- The page of orders, with the page and its size.
pub record OrderPage : Type 0 where
  pub items : List Order
  pub page : ℤ
  pub page_size : ℤ

-- `page` and `page_size` are the numbers that strconv.Atoi returns.
unfoldable pub list_orders :
    (lib : Parsers) → (user_id : Text) → (page page_size : ℤ) → Shop → Reply OrderPage
list_orders lib user_id page page_size s = do
  u ← current_user_id lib user_id
  let p = pagination page page_size
  answered (record {
    items = list_by_user u (page_limit p.1) (page_offset p.0 p.1) s;
    page = p.0;
    page_size = p.1;
  })

abbrev OfUser : ℕ → Order → Type 0
OfUser u o = o.user_id ≡ u

abbrev RowOfUser : ℕ → OrderModel → Type 0
RowOfUser u m = m.user_id ≡ u

where_rows-All : (u : ℕ) (rows : List OrderModel) → All (RowOfUser u) (where_rows (of_user u) rows)
unfolding where_rows
where_rows-All u [] = tt
where_rows-All u (m ∷ ms) = elim (Bool-cases (m.user_id == u)) [
  | inl same ↦ rw same ((==_iff m.user_id u).0 same, where_rows-All u ms)
  | inr other ↦ rw other (where_rows-All u ms)
]

drop-All :
    (P : OrderModel → Type 0) (n : ℕ) (rows : List OrderModel) → All P rows → All P (drop n rows)
drop-All P zero rows a = a
drop-All P (suc n) [] a = tt
drop-All P (suc n) (m ∷ ms) (_, a) = drop-All P n ms a

take-All :
    (P : OrderModel → Type 0) (n : ℕ) (rows : List OrderModel) → All P rows → All P (take n rows)
take-All P zero rows a = tt
take-All P (suc n) [] a = tt
take-All P (suc n) (m ∷ ms) (p, a) = (p, take-All P n ms a)

orders_of-All :
    (u : ℕ) (rows : List OrderModel) → All (RowOfUser u) rows → All (OfUser u) (orders_of rows)
unfolding orders_of to_order
orders_of-All u [] a = tt
orders_of-All u (m ∷ ms) (p, a) = (p, orders_of-All u ms a)

length-orders_of : (n : ℕ) (rows : List OrderModel) → length (orders_of (take n rows)) ≤ n
unfolding orders_of
length-orders_of zero rows = omega arith
length-orders_of (suc n) [] = omega arith
length-orders_of (suc n) (m ∷ ms) = omega (arith, length-orders_of n ms)

page_limit_lem : (page page_size : ℤ) → page_limit (pagination page page_size).1 ≤ 100
unfolding pagination
page_limit_lem page page_size = ground arith

-- A page of orders that is answered holds orders of the request's user alone, at most 100 of them.
pub list_orders_own :
    (lib : Parsers) (user_id : Text) (page page_size : ℤ) (s : Shop) {found : OrderPage}
    → list_orders lib user_id page page_size s ≡ answered found
    → (u : ℕ) × IsUser lib user_id u × All (OfUser u) found.items × (length found.items ≤ 100)
unfolding list_orders list_by_user
list_orders_own lib user_id page page_size s {found} h =
    let (u, by, h1) = answered-bind (current_user_id lib user_id) _ h in
    let p = pagination page page_size in
    let rows = drop (page_offset p.0 p.1) (where_rows (of_user u) s.orders) in
    let same = ap (λ (x : OrderPage). x.items) (answered-injective h1) in
    (
      u,
      by,
      subst (All (OfUser u)) same (
          orders_of-All u (take (page_limit p.1) rows) (
            take-All (RowOfUser u) (page_limit p.1) rows (
              drop-All (RowOfUser u) (page_offset p.0 p.1) (where_rows (of_user u) s.orders)
                (where_rows-All u s.orders)))),
      subst (λ (x : List Order). length x ≤ 100) same
          (omega (arith, length-orders_of (page_limit p.1) rows, page_limit_lem page page_size)),
    )
