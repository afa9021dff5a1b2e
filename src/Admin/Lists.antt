-- ===== src/Admin/Lists.antt =====
-- The lists of services/admin/app: http_service.go, whose page and size are the numbers that
-- strconv.Atoi returns, and grpc_service.go, whose are those of the message. Each reads its table,
-- as the database orders the rows.
use my_go_market.Prelude.{some, List}
use my_go_market.Prelude.Int.{ℤ}
use my_go_market.Prelude.Text.{Text, codes}
use my_go_market.Web.{Reply, answered, ◌>>=◌}
use my_go_market.Admin.Rows.{
  AdminLib, WalletModel, TransactionModel, OrderModel, AuditEventModel, WalletView, TransactionView,
  OrderView, AuditEventView, wallet_to_json, transaction_to_json, order_to_json,
  audit_event_to_json, to_proto_virtual_order, to_proto_wallet_transaction, to_proto_order,
  to_proto_change_log,
}
use my_go_market.Admin.Filters.{
  every_row, where_equal, where_uuid, where_time_range, proto_where_equal, proto_where_uuid,
  proto_where_time_range, Listing, OrderDesc, list_page,
}

-- What a request asks for, by the names of its parameters; one that is not given is empty.

pub record WalletRequest : Type 0 where
  pub owner_id : Text
  pub owner_type : Text
  pub currency_code : Text
  pub status : Text
  pub page : ℤ
  pub page_size : ℤ

pub record TransactionRequest : Type 0 where
  pub wallet_id : Text
  pub reference_id : Text
  pub tx_type : Text
  pub from : Text
  pub to : Text
  pub page : ℤ
  pub page_size : ℤ

pub record OrderRequest : Type 0 where
  pub user_id : Text
  pub app_id : Text
  pub wallet_id : Text
  pub status : Text
  pub currency_code : Text
  pub from : Text
  pub to : Text
  pub page : ℤ
  pub page_size : ℤ

pub record ChangeLogRequest : Type 0 where
  pub event_type : Text
  pub trace_id : Text
  pub actor_id : Text
  pub resource : Text
  pub from : Text
  pub to : Text
  pub page : ℤ
  pub page_size : ℤ

module _ (lib : AdminLib) where
  -- http_service.go

  unfoldable pub list_virtual_orders :
      OrderDesc WalletModel → WalletRequest → List WalletModel → Listing WalletView
  list_virtual_orders order_desc req rows =
      let q1 = where_uuid lib req.owner_id (λ r. some r.owner_id) every_row in
      let q2 = where_equal req.owner_type (λ r. r.owner_type) q1 in
      let q3 = where_equal req.currency_code (λ r. r.currency_code) q2 in
      let q4 = where_equal req.status (λ r. r.status) q3 in
      list_page order_desc (λ r. r.updated_at) (wallet_to_json lib) req.page req.page_size q4 rows

  unfoldable pub list_wallet_transactions :
      OrderDesc TransactionModel
      → TransactionRequest
      → List TransactionModel
      → Listing TransactionView
  list_wallet_transactions order_desc req rows =
      let q1 = where_uuid lib req.wallet_id (λ r. some r.wallet_id) every_row in
      let q2 = where_uuid lib req.reference_id (λ r. r.reference_id) q1 in
      let q3 = where_equal req.tx_type (λ r. r.tx_type) q2 in
      let q4 = where_time_range lib req.from req.to (λ r. r.created_at) q3 in
      list_page order_desc (λ r. r.created_at) (transaction_to_json lib) req.page req.page_size q4
        rows

  unfoldable pub list_orders :
      OrderDesc OrderModel → OrderRequest → List OrderModel → Listing OrderView
  list_orders order_desc req rows =
      let q1 = where_uuid lib req.user_id (λ r. some r.user_id) every_row in
      let q2 = where_uuid lib req.app_id (λ r. some r.app_id) q1 in
      let q3 = where_uuid lib req.wallet_id (λ r. some r.wallet_id) q2 in
      let q4 = where_equal req.status (λ r. r.status) q3 in
      let q5 = where_equal req.currency_code (λ r. r.currency_code) q4 in
      let q6 = where_time_range lib req.from req.to (λ r. r.created_at) q5 in
      list_page order_desc (λ r. r.created_at) (order_to_json lib) req.page req.page_size q6 rows

  unfoldable pub list_change_logs :
      OrderDesc AuditEventModel → ChangeLogRequest → List AuditEventModel → Listing AuditEventView
  list_change_logs order_desc req rows =
      let q1 = where_equal req.event_type (λ r. r.event_type) every_row in
      let q2 = where_equal req.trace_id (λ r. r.trace_id) q1 in
      let q3 = where_equal req.actor_id (λ r. r.actor_id) q2 in
      let q4 = where_equal req.resource (λ r. r.resource) q3 in
      let q5 = where_time_range lib req.from req.to (λ r. r.created_at) q4 in
      list_page order_desc (λ r. r.created_at) (audit_event_to_json lib) req.page req.page_size q5
        rows

  -- grpc_service.go

  unfoldable pub proto_list_virtual_orders :
      OrderDesc WalletModel → WalletRequest → List WalletModel → Reply (Listing WalletView)
  proto_list_virtual_orders order_desc req rows = do
    q1 ←
        proto_where_uuid lib req.owner_id (codes "invalid owner_id") (λ r. some r.owner_id)
          every_row
    let q2 = proto_where_equal req.owner_type (λ r. r.owner_type) q1
    let q3 = proto_where_equal req.currency_code (λ r. r.currency_code) q2
    let q4 = proto_where_equal req.status (λ r. r.status) q3
    answered (
        list_page order_desc (λ r. r.updated_at) (to_proto_virtual_order lib) req.page req.page_size
          q4 rows)

  unfoldable pub proto_list_wallet_transactions :
      OrderDesc TransactionModel
      → TransactionRequest
      → List TransactionModel
      → Reply (Listing TransactionView)
  proto_list_wallet_transactions order_desc req rows = do
    q1 ←
        proto_where_uuid lib req.wallet_id (codes "invalid wallet_id") (λ r. some r.wallet_id)
          every_row
    q2 ←
        proto_where_uuid lib req.reference_id (codes "invalid reference_id") (λ r. r.reference_id)
          q1
    let q3 = proto_where_equal req.tx_type (λ r. r.tx_type) q2
    q4 ← proto_where_time_range lib req.from req.to (λ r. r.created_at) q3
    answered (
        list_page order_desc (λ r. r.created_at) (to_proto_wallet_transaction lib) req.page
          req.page_size q4 rows)

  unfoldable pub proto_list_orders :
      OrderDesc OrderModel → OrderRequest → List OrderModel → Reply (Listing OrderView)
  proto_list_orders order_desc req rows = do
    q1 ← proto_where_uuid lib req.user_id (codes "invalid user_id") (λ r. some r.user_id) every_row
    q2 ← proto_where_uuid lib req.app_id (codes "invalid app_id") (λ r. some r.app_id) q1
    q3 ← proto_where_uuid lib req.wallet_id (codes "invalid wallet_id") (λ r. some r.wallet_id) q2
    let q4 = proto_where_equal req.status (λ r. r.status) q3
    let q5 = proto_where_equal req.currency_code (λ r. r.currency_code) q4
    q6 ← proto_where_time_range lib req.from req.to (λ r. r.created_at) q5
    answered (
        list_page order_desc (λ r. r.created_at) (to_proto_order lib) req.page req.page_size q6
          rows)

  unfoldable pub proto_list_change_logs :
      OrderDesc AuditEventModel
      → ChangeLogRequest
      → List AuditEventModel
      → Reply (Listing AuditEventView)
  proto_list_change_logs order_desc req rows = do
    let q1 = proto_where_equal req.event_type (λ r. r.event_type) every_row
    let q2 = proto_where_equal req.trace_id (λ r. r.trace_id) q1
    let q3 = proto_where_equal req.actor_id (λ r. r.actor_id) q2
    let q4 = proto_where_equal req.resource (λ r. r.resource) q3
    q5 ← proto_where_time_range lib req.from req.to (λ r. r.created_at) q4
    answered (
        list_page order_desc (λ r. r.created_at) (to_proto_change_log lib) req.page req.page_size q5
          rows)
