-- ===== src/Order/Access.antt =====
-- Whose orders the handlers answer with and change (services/order/app/http_service.go).
use mathlib.Core.Option
use my_go_market.Prelude.{
  some, Bool-cases, if◌then◌else◌, ℕ, not, Option, ◌≡◌, refl, ◌==◌, inl, inr, arith, ==_iff, ap,
  sym, subst, ◌∙◌,
}
use my_go_market.Prelude.Text.{Text, codes, trim_space}
use my_go_market.Errors.{
  Error, Result, ok, err, Result-cases, transaction, transaction-eq-ok, >>=-eq-ok, passed,
  order_forbidden, ok-injective,
}
use my_go_market.Web.{
  Reply, refused, answered, Parsers, current_user_id, parse_id, reply_with, refuse_if, Reply-cases,
  answered-bind, answered-injective, IsUser, or_refuse-answered,
}
use my_go_market.Wallet.Ledger.{IsSound}
use my_go_market.Order.Domain.{Order, OrderStatus, pending, paid, cancelled, cancel}
use my_go_market.Order.Store.{
  OrderModel, Shop, Draw, order_key, row_at, to_order, find_by_id, lock_order, written,
  update_order,
}
use my_go_market.Order.Payment.{pay, pay_in_tx, cancel_order, cancel_in_tx}
use my_go_market.Table.{lookup, update, lookup-update_self, lookup-update_ne}
use my_go_market.Order.Rows.{lock_order_lem}
use my_go_market.Order.States.{cancel-order_id}
use my_go_market.Order.Settlement.{pay-makes-PaidBy}
use my_go_market.Order.Handlers.{
  check_order, get_order_handler, pay_order_handler, cancel_order_handler, reply_order, pay_key,
  write_order_error,
}

-- How a request about one order ended: refused with the tables as they were, or answered with an
-- order of the request's user in that status.
abbrev pub EndsIn : OrderStatus → Parsers → (user_id : Text) → Shop → Reply Order → Shop → Type 0
EndsIn st lib user_id s (refused status code) s' = s' ≡ s
EndsIn st lib user_id s (answered o) s' = IsUser lib user_id o.user_id × (o.status ≡ st)

check_order_lem :
    (lib : Parsers) (uuid_string : ℕ → Text) (user_id order_id : Text) {u k : ℕ}
    → check_order lib uuid_string user_id order_id ≡ answered (u, k)
    → IsUser lib user_id u × (lib.parse_uuid (trim_space order_id) ≡ some k)
unfolding check_order parse_id
check_order_lem lib uuid_string user_id order_id {u} {k} h =
    let (u', by, h1) = answered-bind (current_user_id lib user_id) _ h in
    let (k', named, h2) = answered-bind (parse_id lib order_id (codes "INVALID_ORDER_ID")) _ h1 in
    let e : (u', k') ≡ (u, k) = answered-injective h2 in
    let there : lib.parse_uuid (trim_space order_id) ≡ some k' =
      or_refuse-answered (lib.parse_uuid (trim_space order_id)) 400 (codes "INVALID_ORDER_ID")
        named in
    (
      subst (λ j. IsUser lib user_id j) (ap (λ (p : ℕ × ℕ). p.0) e) by,
      there ∙ ap (λ (p : ℕ × ℕ). some p.1) e,
    )

-- A transaction that answers an error keeps the tables.
kept_on_error :
    (body : Shop → Result (Order × Shop)) (s : Shop) {e : Error}
    → (transaction body s).0 ≡ err e
    → (transaction body s).1 ≡ s
kept_on_error body s failed = elim (Result-cases (body s)) [
  | inl (r, ran) ↦ ground arith
  | inr (e, stopped) ↦ ground arith
]

pay-kept :
    (uuid_string : ℕ → Text) (draw : Draw) (k u : ℕ) (key : Text) (s : Shop) {e : Error}
    → (pay uuid_string draw k u key s).0 ≡ err e
    → (pay uuid_string draw k u key s).1 ≡ s
unfolding pay
pay-kept uuid_string draw k u key s failed =
    kept_on_error (pay_in_tx uuid_string draw k u key) s failed

-- What a cancellation answers with and leaves: the row under the order's id was pending and is
-- cancelled, and nothing else of the tables is different.
pub record Cancelled (now : ℕ) (o : Order) (s s' : Shop) : Type 0 where
  pub row : OrderModel
  pub there : row_at o.order_id s ≡ some row
  pub was_pending : row.status ≡ pending
  pub answer : o ≡ to_order (record row { status = cancelled; updated_at = now })
  pub rows :
      (k : ℕ)
      → row_at k s' ≡ (
          if k == o.order_id
          then some (record row { status = cancelled; updated_at = now })
          else row_at k s)
  pub same_ledger : s'.ledger ≡ s.ledger
  pub same_apps : s'.apps ≡ s.apps
  pub same_subscriptions : s'.subscriptions ≡ s.subscriptions
  pub same_outbox : s'.outbox ≡ s.outbox

update_order-rows :
    (o : Order) (s : Shop) {m : OrderModel}
    → row_at o.order_id s ≡ some m
    → (k : ℕ)
    → row_at k (update_order o s) ≡ (if k == o.order_id then some (written o m) else row_at k s)
unfolding update_order
update_order-rows o s {m} found k = elim (Bool-cases (k == o.order_id)) [
  | inl same ↦
      let e : o.order_id ≡ k = sym ((==_iff k o.order_id).0 same) in
      rw same (
        ap (λ j. lookup order_key k (update order_key j (written o) s.orders)) e
        ∙ lookup-update_self order_key k (written o) s.orders (λ r. refl)
        ∙ ap (Option.map (written o)) (ap (λ j. row_at j s) (sym e) ∙ found))
  | inr other ↦ rw other (
      lookup-update_ne order_key k o.order_id (written o) s.orders (λ r. refl)
        (ground (arith, ==_iff k o.order_id, ==_iff o.order_id k)))
]

update_order-ledger : (o : Order) (s : Shop) → (update_order o s).ledger ≡ s.ledger
unfolding update_order
update_order-ledger o s = refl

update_order-apps : (o : Order) (s : Shop) → (update_order o s).apps ≡ s.apps
unfolding update_order
update_order-apps o s = refl

update_order-subscriptions :
    (o : Order) (s : Shop) → (update_order o s).subscriptions ≡ s.subscriptions
unfolding update_order
update_order-subscriptions o s = refl

update_order-outbox : (o : Order) (s : Shop) → (update_order o s).outbox ≡ s.outbox
unfolding update_order
update_order-outbox o s = refl

cancel-user_id : (now : ℕ) (o : Order) {o' : Order} → cancel now o ≡ ok o' → o'.user_id ≡ o.user_id
unfolding cancel
cancel-user_id now o h = ground arith

cancel_lem :
    (now : ℕ) (m : OrderModel) {o : Order}
    → cancel now (to_order m) ≡ ok o
    → (m.status ≡ pending)
      × (o ≡ to_order (record m { status = cancelled; updated_at = now }))
      × (o.order_id ≡ m.order_id)
      × (written o m ≡ record m { status = cancelled; updated_at = now })
unfolding cancel to_order
cancel_lem now m h = ground arith

cancel_order_lem :
    (now k u : ℕ) (s : Shop) {o : Order}
    → (cancel_order now k u s).0 ≡ ok o
    → (o.user_id ≡ u) × (o.order_id ≡ k) × Cancelled now o s (cancel_order now k u s).1
unfolding cancel_order cancel_in_tx
cancel_order_lem now k u s {o} h =
    let (locked, took, h1) =
      >>=-eq-ok (lock_order k s) _
        (transaction-eq-ok (cancel_in_tx now k u) s (λ i. (h i, (cancel_order now k u s).1))) in
    let (m, found, same, named) = lock_order_lem k s took in
    let (own, h2) = passed (not (locked.user_id == u)) order_forbidden _ h1 in
    let of_user : locked.user_id ≡ u = (==_iff locked.user_id u).0 (ground (arith, own)) in
    let (o1, done, h3) = >>=-eq-ok (cancel now locked) _ h2 in
    let (was, made, kept, row) = cancel_lem now m (ap (cancel now) same ∙ done) in
    let e : (o1, update_order o1 s) ≡ (o, (cancel_order now k u s).1) = ok-injective h3 in
    let eo : o1 ≡ o = ap (λ (p : Order × Shop). p.0) e in
    let id : o1.order_id ≡ k = cancel-order_id now locked done ∙ named in
    let at : row_at o1.order_id s ≡ some m = ap (λ j. row_at j s) id ∙ found in
    let result : Cancelled now o1 s (update_order o1 s) = record {
      row = m;
      there = at;
      was_pending = was;
      answer = made;
      rows = λ j.
          update_order-rows o1 s at j
          ∙ ap (λ (r : OrderModel). if j == o1.order_id then some r else row_at j s) row;
      same_ledger = update_order-ledger o1 s;
      same_apps = update_order-apps o1 s;
      same_subscriptions = update_order-subscriptions o1 s;
      same_outbox = update_order-outbox o1 s;
    } in
    (
      ap (λ (x : Order). x.user_id) (sym eo) ∙ cancel-user_id now locked done ∙ of_user,
      ap (λ (x : Order). x.order_id) (sym eo) ∙ id,
      subst (λ (p : Order × Shop). Cancelled now p.0 s p.1) e result,
    )

-- The handler of one order answers with an order of the request's user alone.
pub get_order_own :
    (lib : Parsers) (uuid_string : ℕ → Text) (user_id order_id : Text) (s : Shop) {o : Order}
    → get_order_handler lib uuid_string user_id order_id s ≡ answered o
    → IsUser lib user_id o.user_id
unfolding get_order_handler check_order
get_order_own lib uuid_string user_id order_id s {o} h =
    let ((u, k), named, h1) = answered-bind (check_order lib uuid_string user_id order_id) _ h in
    let (o', read, h2) = answered-bind (reply_with write_order_error (find_by_id k s)) _ h1 in
    let (_, own, h3) =
      answered-bind (refuse_if (not (o'.user_id == u)) 403 (codes "ORDER_FORBIDDEN")) _ h2 in
    subst (λ (x : Order). IsUser lib user_id x.user_id) (answered-injective h3)
      (subst (λ j. IsUser lib user_id j) (sym ((==_iff o'.user_id u).0 (ground arith)))
        (check_order_lem lib uuid_string user_id order_id named).0)

-- A call of the repository in a transaction, as the handlers answer it.
answer-EndsIn :
    (st : OrderStatus) (lib : Parsers) (user_id : Text) (s : Shop) (r : Result Order) (s' : Shop)
    → ((e : Error) → r ≡ err e → s' ≡ s)
    → ((o : Order) → r ≡ ok o → IsUser lib user_id o.user_id × (o.status ≡ st))
    → let (reply, s'') = reply_order (r, s') in EndsIn st lib user_id s reply s''
answer-EndsIn st lib user_id s (err e) s' failed done = failed e refl
answer-EndsIn st lib user_id s (ok o) s' failed done = done o refl

-- On a sound ledger the handler of a payment refuses and changes nothing, or answers with a paid
-- order of the request's user.
pub pay_order_own :
    (lib : Parsers) (uuid_string : ℕ → Text) (draw : Draw) (user_id order_id : Text)
    (body : Option Text) (s : Shop)
    → IsSound s.ledger
    → let (reply, s') = pay_order_handler lib uuid_string draw user_id order_id body s in
      EndsIn paid lib user_id s reply s'
unfolding pay_order_handler
pay_order_own lib uuid_string draw user_id order_id body s sound =
    elim (Reply-cases (check_order lib uuid_string user_id order_id)) [
      | inr (status, code, refusal) ↦ rw (refusal, pay_order_handler) refl
      | inl ((u, k), named) ↦
          rw (named, pay_order_handler)
            (answer-EndsIn paid lib user_id s (pay uuid_string draw k u (pay_key body) s).0
              (pay uuid_string draw k u (pay_key body) s).1
              (λ e failed. pay-kept uuid_string draw k u (pay_key body) s failed)
              (λ o done.
                let (p, _) =
                  pay-makes-PaidBy uuid_string draw k u (pay_key body) s sound
                    (λ i. (done i, (pay uuid_string draw k u (pay_key body) s).1)) in
                (
                  subst (λ j. IsUser lib user_id j) (sym p.own)
                      (check_order_lem lib uuid_string user_id order_id named).0,
                  p.is_settled,
                )))
    ]

-- How a request to cancel an order ended: refused with the tables as they were, or answered with the
-- order that it names, which is the user's and now cancelled.
abbrev pub EndsCancelled :
    (now : ℕ) → Parsers → (user_id order_id : Text) → Shop → Reply Order → Shop → Type 0
EndsCancelled now lib user_id order_id s (refused status code) s' = s' ≡ s
EndsCancelled now lib user_id order_id s (answered o) s' =
    IsUser lib user_id o.user_id
    × (lib.parse_uuid (trim_space order_id) ≡ some o.order_id)
    × Cancelled now o s s'

answer-EndsCancelled :
    (now : ℕ) (lib : Parsers) (user_id order_id : Text) (s : Shop) (r : Result Order) (s' : Shop)
    → ((e : Error) → r ≡ err e → s' ≡ s)
    → ((o : Order) → r ≡ ok o → EndsCancelled now lib user_id order_id s (answered o) s')
    → let (reply, s'') = reply_order (r, s') in EndsCancelled now lib user_id order_id s reply s''
answer-EndsCancelled now lib user_id order_id s (err e) s' failed done = failed e refl
answer-EndsCancelled now lib user_id order_id s (ok o) s' failed done = done o refl

-- The handler of a cancellation refuses and changes nothing, or answers with the order that the
-- request names, an order of the request's user: its row was pending, and is cancelled at this moment
-- and otherwise as it was; every other row, the ledger, the apps, the subscriptions and the outbox
-- stay.
pub cancel_order_own :
    (lib : Parsers) (uuid_string : ℕ → Text) (now : ℕ) (user_id order_id : Text) (s : Shop)
    → let (reply, s') = cancel_order_handler lib uuid_string now user_id order_id s in
      EndsCancelled now lib user_id order_id s reply s'
unfolding cancel_order_handler cancel_order
cancel_order_own lib uuid_string now user_id order_id s =
    elim (Reply-cases (check_order lib uuid_string user_id order_id)) [
      | inr (status, code, refusal) ↦ rw (refusal, cancel_order_handler) refl
      | inl ((u, k), named) ↦
          rw (named, cancel_order_handler)
            (answer-EndsCancelled now lib user_id order_id s (cancel_order now k u s).0
              (cancel_order now k u s).1 (λ e failed. kept_on_error (cancel_in_tx now k u) s failed)
              (λ o done.
                let (own, id, left) = cancel_order_lem now k u s done in
                let (by, names) = check_order_lem lib uuid_string user_id order_id named in
                (subst (λ j. IsUser lib user_id j) (sym own) by, names ∙ ap some (sym id), left)))
    ]
