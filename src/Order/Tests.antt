-- ===== src/Order/Tests.antt =====
-- The order theorems at a concrete shop: one pending order of user 11 over 40, and the user's wallet
-- with 100. The strings of ids are single letters here.
use my_go_market.Prelude.{ℕ, ◌+◌, Option, none, some, List, [], ◌∷◌, ◌≡◌, refl, true}
use my_go_market.Prelude.Int.{ℤ, pos}
use my_go_market.Prelude.Text.{Text, codes}
use my_go_market.Errors.{Result, ok}
use my_go_market.Prelude.{◌-◌, All, length, ◌≤◌}
use my_go_market.Order.Queries.{OrderPage}
use my_go_market.Prelude.Int.{◌≤ℤ◌}
use my_go_market.Web.{Parsers}
use my_go_market.Order.Domain.{cancelled}
use my_go_market.Order.Handlers.{pay_order_handler, cancel_order_handler}
use my_go_market.Order.Access.{EndsIn, EndsCancelled, pay_order_own, cancel_order_own}
use my_go_market.Wallet.Domain.{user}
use my_go_market.Wallet.Store.{Ledger, Env}
use my_go_market.Wallet.Ledger.{IsSound}
use my_go_market.Wallet.History.{
  Request, open_wallet, credit_wallet, serve_all, empty_ledger, serve_all-IsSound,
  empty_ledger-IsSound,
}
use my_go_market.Order.Domain.{Order, pending, paid, mark_paid_awaiting_entitlement}
use my_go_market.Order.Store.{OrderModel, AppModel, Shop, Draw, row_at, to_order}
use my_go_market.Order.Payment.{pay, payment_idempotency_key}
use my_go_market.Order.Rows.{Evolves, IsKeyed}
use my_go_market.Order.Settling.{Settled}
use my_go_market.Order.Settlement.{pay_settles, pay_again}
use my_go_market.Order.History.{to_pay, to_cancel, to_expire, orders_evolve}

abbrev letters : ℕ → Text
letters k = (97 + k) ∷ []

abbrev opening : List Request
opening =
    open_wallet (record { now = 1; fresh = 1; fresh_second = 0 }) 11 user (codes "CNY")
    ∷ credit_wallet (record { now = 2; fresh = 50; fresh_second = 0 }) 1 (pos 100) none
        (codes "top up") (codes "k1")
    ∷ []

abbrev opened : Ledger
opened = serve_all opening empty_ledger

opened-IsSound : IsSound opened
opened-IsSound = serve_all-IsSound opening empty_ledger-IsSound

abbrev placed : OrderModel
placed = record {
  order_id = 5;
  user_id = 11;
  app_id = 3;
  wallet_id = 1;
  amount = pos 40;
  currency_code = codes "CNY";
  status = pending;
  tx_id = none;
  subscription_id = none;
  idempotency_key = some (codes "o1");
  description = codes "";
  created_at = 3;
  updated_at = 3;
  paid_at = none;
}

abbrev shop : Shop
shop = record {
  ledger = opened;
  apps = record { app_id = 3; is_published = true } ∷ [];
  orders = placed ∷ [];
  subscriptions = [];
  outbox = [];
}

abbrev at : ℕ → Draw
at n = record {
  now = n;
  year_later = n + 365;
  order_id = 200 + n;
  event_id = 300 + n;
  sub_id = 400 + n;
  opening = record { now = n; fresh = 500 + n; fresh_second = 0 };
  payment = record { now = n; fresh = 600 + n; fresh_second = 0 };
}

-- The order as its payment at 4 leaves it.
abbrev paid_order : Order
paid_order = record (to_order placed) {
  status = paid;
  tx_id = some 604;
  paid_at = some 4;
  updated_at = 4;
}

abbrev after : Result Order × Shop
after = pay letters (at 4) 5 11 (codes "p1") shop

after_ok : after ≡ (ok paid_order, after.1)
unfolding my_go_market.Table.lookup my_go_market.Table.find_by my_go_market.Table.update
    my_go_market.Wallet.History.serve_all my_go_market.Wallet.History.serve
    my_go_market.Wallet.Change.credit my_go_market.Wallet.Change.debit_in_tx
    my_go_market.Wallet.Change.apply_wallet_change_in_tx my_go_market.Wallet.Change.move_balance
    my_go_market.Wallet.Change.replay_before_lock my_go_market.Wallet.Store.get_or_create_by_owner
    my_go_market.Wallet.Store.insert_wallet my_go_market.Wallet.Change.lock_and_change
    my_go_market.Wallet.Store.lock_wallet my_go_market.Wallet.Change.change_locked
    my_go_market.Wallet.Change.post_change my_go_market.Wallet.Store.create_transaction
    my_go_market.Wallet.Store.update_wallet my_go_market.Wallet.Store.new_transaction_model
    my_go_market.Wallet.Store.find_transaction_by_key my_go_market.Wallet.Store.stored_key
    my_go_market.Wallet.Domain.new_transaction my_go_market.Wallet.Domain.new_wallet
    my_go_market.Prelude.Int.◌+ℤ◌ my_go_market.Prelude.Int.◌-ℤ◌ my_go_market.Prelude.Text.is_space
    my_go_market.Prelude.Text.text_eq my_go_market.Prelude.Text.to_upper
    my_go_market.Prelude.Text.trim_left my_go_market.Prelude.Text.trim_space
    my_go_market.Order.Payment.pay my_go_market.Order.Payment.pay_in_tx
    my_go_market.Order.Payment.by_status my_go_market.Order.Payment.settle
    my_go_market.Order.Payment.settled_before my_go_market.Order.Store.lock_order
    my_go_market.Order.Store.to_order my_go_market.Order.Store.update_order
    my_go_market.Order.Store.enqueue_entitlement
    my_go_market.Order.Domain.mark_paid_awaiting_entitlement
after_ok = refl

placed_found : row_at 5 shop ≡ some placed
unfolding my_go_market.Table.lookup
placed_found = refl

pay_settles_example :
    Settled placed (payment_idempotency_key letters 5 (codes "p1")) paid_order shop after.1
    × (paid_order.order_id ≡ 5)
    × (placed.user_id ≡ 11)
    × IsSound after.1.ledger
pay_settles_example =
    pay_settles letters (at 4) 5 11 (codes "p1") shop placed opened-IsSound placed_found refl
      after_ok

pay_again_example : pay letters (at 9) 5 11 (codes "p2") after.1 ≡ (ok paid_order, after.1)
pay_again_example =
    pay_again letters (at 4) (at 9) 5 11 (codes "p1") (codes "p2") shop opened-IsSound after_ok

abbrev requests : List my_go_market.Order.History.Request
requests = to_pay (at 4) 5 11 (codes "p1") ∷ to_cancel 6 5 11 ∷ to_expire 900 30 10 ∷ []

abbrev later_shop : Shop
later_shop = my_go_market.Order.History.serve_all letters requests shop

orders_evolve_example :
    IsKeyed later_shop
    × ((k : ℕ) (m : OrderModel)
        → row_at k shop ≡ some m
        → (m' : OrderModel) × (row_at k later_shop ≡ some m') × Evolves m m')
orders_evolve_example = orders_evolve letters requests shop (tt, tt)

-- A library that reads the text of a user or an order by its first letter, and every amount as 7.
abbrev first_letter : Text → Option ℕ
first_letter [] = none
first_letter (c ∷ cs) = some (c - 97)

abbrev lib : Parsers
lib = record { parse_uuid = first_letter; new_from_string = λ t. some (pos 7) }

pay_order_own_example :
    let (reply, s') = pay_order_handler lib letters (at 4) (codes "l") (codes "f") none shop in
    EndsIn paid lib (codes "l") shop reply s'
pay_order_own_example =
    pay_order_own lib letters (at 4) (codes "l") (codes "f") none shop opened-IsSound

cancel_order_own_example :
    let (reply, s') = cancel_order_handler lib letters 6 (codes "l") (codes "f") shop in
    EndsCancelled 6 lib (codes "l") (codes "f") shop reply s'
cancel_order_own_example = cancel_order_own lib letters 6 (codes "l") (codes "f") shop

abbrev first_page : OrderPage
first_page = record { items = to_order placed ∷ []; page = pos 1; page_size = pos 20 }
