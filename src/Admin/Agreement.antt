-- ===== src/Admin/Agreement.antt =====
-- The lists of gRPC and of HTTP compared (services/admin/app).
use my_go_market.Prelude.{
  ℕ, Bool, true, false, not, Option, none, some, List, ◌≡◌, ◌&&◌, ◌||◌, ◌⊎◌, inl, inr, arith, ap,
  ◌∙◌, Bool-cases, Option-cases,
}
use my_go_market.Prelude.Text.{Text, is_empty, trim_space}
use my_go_market.Web.{Reply, refused, answered, ◌>>=◌}
use my_go_market.Admin.Rows.{
  AdminLib, WalletModel, TransactionModel, OrderModel, AuditEventModel, wallet_to_json,
  transaction_to_json, order_to_json, audit_event_to_json, to_proto_virtual_order,
  to_proto_wallet_transaction, to_proto_order, to_proto_change_log,
}
use my_go_market.Admin.Filters.{
  OrderDesc, Query, where_equal, where_parsed, where_uuid, where_time_range, parse_time,
  parse_time_query, or_invalid, parse_proto_time, proto_where_equal, or_invalid_id,
  proto_where_uuid, proto_where_time_range,
}
use my_go_market.Admin.Lists.{
  WalletRequest, TransactionRequest, OrderRequest, ChangeLogRequest, list_virtual_orders,
  list_wallet_transactions, list_orders, list_change_logs, proto_list_virtual_orders,
  proto_list_wallet_transactions, proto_list_orders, proto_list_change_logs,
}

-- A text that is given and cannot be read.
abbrev pub is_unread : (Text → Option ℕ) → Text → Bool
is_unread parse value =
    let v = trim_space value in
    not (is_empty v) && (elim (parse v) [ none ↦ true | some k ↦ false ])

-- The reply of gRPC has this answer; or it is InvalidArgument, and something of the request cannot be
-- read.
abbrev pub Meets {ℓ} : {A : Type ℓ} → (unread : Bool) → Reply A → A → Type ℓ
Meets unread reply a =
    (reply ≡ answered a) ⊎ ((code : Text) × (reply ≡ refused 3 code) × (unread ≡ true))

-- A reading of the request and then another; the second is what the whole comes to.
bind-Meets :
    {A B : Type 0} (b c : Bool) (reply : Reply A) (f : A → Reply B) {a : A} {x : B}
    → Meets b reply a
    → Meets c (f a) x
    → Meets (b || c) (reply >>= f) x
bind-Meets b c reply f {a} {x} (inl e) (inl done) = inl (ap (λ (r : Reply _). r >>= f) e ∙ done)
bind-Meets b c reply f {a} {x} (inl e) (inr (code, refusal, unread)) =
    inr (code, ap (λ (r : Reply _). r >>= f) e ∙ refusal, ground (arith, unread))
bind-Meets b c reply f {a} {x} (inr (code, e, unread)) next =
    inr (code, ap (λ (r : Reply _). r >>= f) e, ground (arith, unread))

-- The last reading, and the answer from it.
last-Meets :
    {A B : Type 0} (b : Bool) (reply : Reply A) (f : A → B) {a : A}
    → Meets b reply a
    → Meets b (reply >>= (λ x. answered (f x))) (f a)
last-Meets b reply f (inl e) = inl (ap (λ (r : Reply _). r >>= (λ x. answered (f x))) e)
last-Meets b reply f (inr (code, e, unread)) =
    inr (code, ap (λ (r : Reply _). r >>= (λ x. answered (f x))) e, unread)

module _ (lib : AdminLib) where
  parse_proto_time-Meets :
      (value code : Text)
      → Meets
          (is_unread (parse_time lib) value)
          (parse_proto_time lib value code)
          (parse_time_query lib value)
  unfolding parse_proto_time parse_time_query or_invalid
  parse_proto_time-Meets value code = elim (Bool-cases (is_empty (trim_space value))) [
    | inl blank ↦ inl (ground (arith, blank))
    | inr given ↦ elim (Option-cases (parse_time lib (trim_space value))) [
      | inl unread ↦ inr (code, ground (arith, given, unread), ground (arith, given, unread))
      | inr (t, read) ↦ inl (ground (arith, given, read))
    ]
  ]

  proto_where_uuid-Meets :
      {R : Type 0} (value code : Text) (column : R → Option ℕ) (q : Query R)
      → Meets
          (is_unread lib.parse_uuid value)
          (proto_where_uuid lib value code column q)
          (where_uuid lib value column q)
  unfolding proto_where_uuid where_uuid or_invalid_id where_parsed
  proto_where_uuid-Meets value code column q = elim (Bool-cases (is_empty (trim_space value))) [
    | inl blank ↦ inl (ground (arith, blank))
    | inr given ↦ elim (Option-cases (lib.parse_uuid (trim_space value))) [
      | inl unread ↦ inr (code, ground (arith, given, unread), ground (arith, given, unread))
      | inr (k, read) ↦ inl (ground (arith, given, read))
    ]
  ]

  proto_where_time_range-Meets :
      {R : Type 0} (from to : Text) (column : R → ℕ) (q : Query R)
      → Meets
          (is_unread (parse_time lib) from || is_unread (parse_time lib) to)
          (proto_where_time_range lib from to column q)
          (where_time_range lib from to column q)
  unfolding proto_where_time_range where_time_range
  proto_where_time_range-Meets from to column q =
      bind-Meets _ _ (parse_proto_time lib from _) _ (parse_proto_time-Meets from _)
        (last-Meets _ (parse_proto_time lib to _) _ (parse_proto_time-Meets to _))

  -- For one request, each list of gRPC is the one of HTTP, its total, page and fields included; or gRPC
  -- refuses it as InvalidArgument, and an id or a time of the request is given that cannot be read.
  -- This holds in whatever way the database orders rows, equal times included, if it does so alike for
  -- both.
  pub protocols_agree :
      (by_w : OrderDesc WalletModel) (by_t : OrderDesc TransactionModel)
      (by_o : OrderDesc OrderModel) (by_c : OrderDesc AuditEventModel) (w : WalletRequest)
      (wallets : List WalletModel) (t : TransactionRequest) (transactions : List TransactionModel)
      (o : OrderRequest) (orders : List OrderModel) (c : ChangeLogRequest)
      (events : List AuditEventModel)
      → let id = is_unread lib.parse_uuid in
        let time = is_unread (parse_time lib) in
        Meets
          (id w.owner_id)
          (proto_list_virtual_orders lib by_w w wallets)
          (list_virtual_orders lib by_w w wallets)
        × Meets
            (id t.wallet_id || (id t.reference_id || (time t.from || time t.to)))
            (proto_list_wallet_transactions lib by_t t transactions)
            (list_wallet_transactions lib by_t t transactions)
        × Meets
            (id o.user_id || (id o.app_id || (id o.wallet_id || (time o.from || time o.to))))
            (proto_list_orders lib by_o o orders)
            (list_orders lib by_o o orders)
        × Meets
            (time c.from || time c.to)
            (proto_list_change_logs lib by_c c events)
            (list_change_logs lib by_c c events)
  unfolding list_virtual_orders list_wallet_transactions list_orders list_change_logs
      proto_list_virtual_orders proto_list_wallet_transactions proto_list_orders
      proto_list_change_logs where_equal proto_where_equal wallet_to_json transaction_to_json
      order_to_json audit_event_to_json to_proto_virtual_order to_proto_wallet_transaction
      to_proto_order to_proto_change_log
  protocols_agree by_w by_t by_o by_c w wallets t transactions o orders c events = (
    last-Meets _ _ _ (proto_where_uuid-Meets w.owner_id _ _ _),
    bind-Meets _ _ _ _ (proto_where_uuid-Meets t.wallet_id _ _ _) (
        bind-Meets _ _ _ _ (proto_where_uuid-Meets t.reference_id _ _ _)
          (last-Meets _ _ _ (proto_where_time_range-Meets t.from t.to _ _))),
    bind-Meets _ _ _ _ (proto_where_uuid-Meets o.user_id _ _ _) (
        bind-Meets _ _ _ _ (proto_where_uuid-Meets o.app_id _ _ _) (
          bind-Meets _ _ _ _ (proto_where_uuid-Meets o.wallet_id _ _ _)
            (last-Meets _ _ _ (proto_where_time_range-Meets o.from o.to _ _)))),
    last-Meets _ _ _ (proto_where_time_range-Meets c.from c.to _ _),
  )
