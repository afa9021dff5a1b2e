-- ===== src/Admin/Tests.antt =====
-- The theorems on the lists for administrators at concrete requests.
use my_go_market.Prelude.{
  ℕ, zero, suc, ◌+◌, ◌*◌, ◌≤◌, ◌<◌, Bool, true, false, Option, none, some, List, [], ◌∷◌, ◌≡◌, refl,
  ◌||◌, arith, if◌then◌else◌, ltb, All, Bool-cases, inl, inr,
}
use my_go_market.Prelude.Int.{pos}
use my_go_market.Prelude.Text.{Text, codes}
use my_go_market.Admin.Rows.{AdminLib, WalletModel, TransactionModel, wallet_to_json}
use my_go_market.Admin.Filters.{every_row, where_equal, OrderDesc, show_rows, parse_time}
use my_go_market.Admin.Lists.{
  WalletRequest, TransactionRequest, OrderRequest, ChangeLogRequest, list_virtual_orders,
  list_wallet_transactions, list_orders, list_change_logs, proto_list_virtual_orders,
  proto_list_wallet_transactions, proto_list_orders, proto_list_change_logs,
}
use my_go_market.Admin.Agreement.{Meets, is_unread, protocols_agree}
use my_go_market.Admin.Coverage.{IsOrderDesc, first_pages, pages_cover}
use my_go_market.Admin.Newest.{AreNewestFirst}
use mathlib.Core.List.Permᴰ
use mathlib.Core.List.{Permᴰ}
use my_go_market.Table.{where_rows}

-- An id is one letter, and a time one digit.

abbrev letter : Text → Option ℕ
letter (c ∷ []) = some c
letter _ = none

abbrev lib : AdminLib
lib = record {
  parse_uuid = letter;
  parse_rfc3339 = letter;
  parse_date = λ value. none;
  uuid_string = λ k. k ∷ [];
  format_utc = λ t. t ∷ [];
  string_fixed = λ amount. codes "7.0000";
}

abbrev wallet : (id time : ℕ) → WalletModel
wallet id time = record {
  wallet_id = id;
  owner_id = 97;
  owner_type = codes "user";
  balance = pos 70000;
  currency_code = codes "COIN";
  status = codes "active";
  updated_at = time;
}

abbrev wallets : List WalletModel
wallets = wallet 1 10 ∷ wallet 2 30 ∷ wallet 3 20 ∷ []

abbrev of_owner : Text → WalletRequest
of_owner owner = record {
  owner_id = owner;
  owner_type = [];
  currency_code = codes "COIN";
  status = [];
  page = pos 1;
  page_size = pos 2;
}

abbrev payment : TransactionModel
payment = record {
  tx_id = 5;
  wallet_id = 1;
  tx_type = codes "consume";
  amount = pos 70000;
  balance_after = pos 0;
  reference_id = none;
  idempotency_key = some (codes "k");
  description = [];
  created_at = 49;
}

abbrev since : Text → TransactionRequest
since time = record {
  wallet_id = [];
  reference_id = [];
  tx_type = codes "consume";
  from = time;
  to = [];
  page = pos 1;
  page_size = pos 20;
}

abbrev any_order : OrderRequest
any_order = record {
  user_id = codes "a";
  app_id = [];
  wallet_id = [];
  status = [];
  currency_code = [];
  from = [];
  to = [];
  page = pos 1;
  page_size = pos 20;
}

abbrev any_change : ChangeLogRequest
any_change = record {
  event_type = [];
  trace_id = [];
  actor_id = codes "root";
  resource = [];
  from = codes "1";
  to = codes "never";
  page = pos 1;
  page_size = pos 20;
}

-- A database that lets a later row of the table come first where times are equal.

unfoldable insert_newest : {R : Type 0} → (R → ℕ) → R → List R → List R
insert_newest time r [] = r ∷ []
insert_newest time r (s ∷ rows) =
    let rest = insert_newest time r rows in if ltb (time s) (time r) then r ∷ s ∷ rows else s ∷ rest

unfoldable newest_first : {R : Type 0} → OrderDesc R
newest_first time [] = []
newest_first time (r ∷ rows) = insert_newest time r (newest_first time rows)

module _ {R : Type 0} (time : R → ℕ) where
  insert_newest-perm : (r : R) (rows : List R) → Permᴰ (insert_newest time r rows) (r ∷ rows)
  unfolding insert_newest
  insert_newest-perm r [] = Permᴰ.refl (r ∷ [])
  insert_newest-perm r (s ∷ rows) = elim (Bool-cases (ltb (time s) (time r))) [
    | inl newer ↦ rw newer (Permᴰ.refl (r ∷ s ∷ rows))
    | inr older ↦
        rw older (Permᴰ.trans (Permᴰ.cons refl (insert_newest-perm r rows)) (Permᴰ.swap refl refl))
  ]

  newest_first-perm : (rows : List R) → Permᴰ (newest_first time rows) rows
  unfolding newest_first
  newest_first-perm [] = Permᴰ.nil
  newest_first-perm (r ∷ rows) =
      Permᴰ.trans (insert_newest-perm r (newest_first time rows))
        (Permᴰ.cons refl (newest_first-perm rows))

  All-insert_newest :
      (P : R → Type 0) (r : R) (rows : List R)
      → P r
      → All P rows
      → All P (insert_newest time r rows)
  unfolding insert_newest
  All-insert_newest P r [] p _ = (p, tt)
  All-insert_newest P r (s ∷ rows) p (q, qs) = elim (Bool-cases (ltb (time s) (time r))) [
    | inl newer ↦ rw newer (p, (q, qs))
    | inr older ↦ rw older (q, All-insert_newest P r rows p qs)
  ]

  raise :
      (low high : ℕ) (rows : List R)
      → low ≤ high
      → All (λ (y : R). time y ≤ low) rows
      → All (λ (y : R). time y ≤ high) rows
  raise low high [] h _ = tt
  raise low high (y ∷ rows) h (q, qs) = (omega (arith, q, h), raise low high rows h qs)

  insert_newest-AreNewestFirst :
      (r : R) (rows : List R)
      → AreNewestFirst time rows
      → AreNewestFirst time (insert_newest time r rows)
  unfolding insert_newest
  insert_newest-AreNewestFirst r [] _ = (tt, tt)
  insert_newest-AreNewestFirst r (s ∷ rows) (q, qs) = elim (Bool-cases (ltb (time s) (time r))) [
    | inl newer ↦
        let below : time s ≤ time r = ground (arith, newer) in
        rw newer ((below, raise (time s) (time r) rows below q), (q, qs))
    | inr older ↦ rw older (
      All-insert_newest (λ (y : R). time y ≤ time s) r rows (ground (arith, older)) q,
      insert_newest-AreNewestFirst r rows qs,
    )
  ]

  newest_first-AreNewestFirst : (rows : List R) → AreNewestFirst time (newest_first time rows)
  unfolding newest_first
  newest_first-AreNewestFirst [] = tt
  newest_first-AreNewestFirst (r ∷ rows) =
      insert_newest-AreNewestFirst r (newest_first time rows) (newest_first-AreNewestFirst rows)

  newest_first-IsOrderDesc : IsOrderDesc newest_first time
  newest_first-IsOrderDesc = record {
    same_rows = newest_first-perm;
    newest = newest_first-AreNewestFirst;
  }

protocols_agree_example :
    let id = is_unread lib.parse_uuid in
    let time = is_unread (parse_time lib) in
    Meets
      (id (codes "a"))
      (proto_list_virtual_orders lib newest_first (of_owner (codes "a")) wallets)
      (list_virtual_orders lib newest_first (of_owner (codes "a")) wallets)
    × Meets
        (id [] || (id [] || (time (codes "1") || time [])))
        (proto_list_wallet_transactions lib newest_first (since (codes "1")) (payment ∷ []))
        (list_wallet_transactions lib newest_first (since (codes "1")) (payment ∷ []))
    × Meets
        (id (codes "a") || (id [] || (id [] || (time [] || time []))))
        (proto_list_orders lib newest_first any_order [])
        (list_orders lib newest_first any_order [])
    × Meets
        (time (codes "1") || time (codes "never"))
        (proto_list_change_logs lib newest_first any_change [])
        (list_change_logs lib newest_first any_change [])
protocols_agree_example =
    protocols_agree lib newest_first newest_first newest_first newest_first (of_owner (codes "a"))
      wallets (since (codes "1")) (payment ∷ []) any_order [] any_change []

abbrev by_users : WalletModel → Bool
by_users = where_equal (codes "user") (λ (r : WalletModel). r.owner_type) every_row

pages_cover_example :
    (sorted : List WalletModel) × Permᴰ sorted (where_rows by_users wallets)
    × AreNewestFirst (λ (r : WalletModel). r.updated_at) sorted
    × (first_pages
          (λ _. newest_first)
          (λ (r : WalletModel). r.updated_at)
          (wallet_to_json lib)
          by_users
          wallets
          2
          2
        ≡ show_rows (wallet_to_json lib) sorted)
pages_cover_example =
    pages_cover (λ _. newest_first) (λ (r : WalletModel). r.updated_at) (wallet_to_json lib)
      by_users wallets 2 2 (λ i. newest_first-IsOrderDesc (λ (r : WalletModel). r.updated_at))
      (unfold where_equal where_rows my_go_market.Prelude.Text.text_eq
          my_go_market.Prelude.Text.trim_space my_go_market.Prelude.Text.trim_left
          my_go_market.Prelude.Text.is_space in
        ((refl, (refl, tt)), ((refl, tt), (tt, tt))))
      (omega arith) (omega arith) (omega arith)
      (unfold where_equal where_rows my_go_market.Admin.Filters.list_page
          my_go_market.Prelude.Text.text_eq my_go_market.Prelude.Text.trim_space
          my_go_market.Prelude.Text.trim_left my_go_market.Prelude.Text.is_space in
        omega arith)
