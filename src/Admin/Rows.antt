-- ===== src/Admin/Rows.antt =====
-- The rows that services/admin/app/http_service.go reads, and what it and grpc_service.go show of them.
-- Amounts are in ten-thousandths, a zero time is the number 0, and a metadata column is its text.
use my_go_market.Prelude.{ℕ, Option, none, some, [], ◌==◌, if◌then◌else◌}
use my_go_market.Prelude.Int.{ℤ}
use my_go_market.Prelude.Text.{Text}

-- What is called of google/uuid, shopspring/decimal (StringFixed(4)) and time, where none is an error.
pub record AdminLib : Type 0 where
  pub parse_uuid : Text → Option ℕ
  pub parse_rfc3339 : Text → Option ℕ
  pub parse_date : Text → Option ℕ
  pub uuid_string : ℕ → Text
  pub format_utc : ℕ → Text
  pub string_fixed : ℤ → Text

-- `walletModel`
pub record WalletModel : Type 0 where
  pub wallet_id : ℕ
  pub owner_id : ℕ
  pub owner_type : Text
  pub balance : ℤ
  pub currency_code : Text
  pub status : Text
  pub updated_at : ℕ

-- `transactionModel`
pub record TransactionModel : Type 0 where
  pub tx_id : ℕ
  pub wallet_id : ℕ
  pub tx_type : Text
  pub amount : ℤ
  pub balance_after : ℤ
  pub reference_id : Option ℕ
  pub idempotency_key : Option Text
  pub description : Text
  pub created_at : ℕ

-- `orderModel`
pub record OrderModel : Type 0 where
  pub order_id : ℕ
  pub user_id : ℕ
  pub app_id : ℕ
  pub wallet_id : ℕ
  pub amount : ℤ
  pub currency_code : Text
  pub status : Text
  pub tx_id : Option ℕ
  pub subscription_id : Option ℕ
  pub idempotency_key : Option Text
  pub description : Text
  pub created_at : ℕ
  pub paid_at : Option ℕ
  pub updated_at : ℕ

-- `auditEventModel`
pub record AuditEventModel : Type 0 where
  pub event_id : ℕ
  pub event_type : Text
  pub trace_id : Text
  pub actor_id : Text
  pub resource : Text
  pub metadata : Text
  pub error : Text
  pub created_at : ℕ

-- What is shown, whose names the JSON and the messages share.

pub record WalletView : Type 0 where
  pub wallet_id : Text
  pub owner_id : Text
  pub owner_type : Text
  pub balance : Text
  pub currency_code : Text
  pub status : Text
  pub updated_at : Text

pub record TransactionView : Type 0 where
  pub tx_id : Text
  pub wallet_id : Text
  pub tx_type : Text
  pub amount : Text
  pub balance_after : Text
  pub reference_id : Text
  pub idempotency_key : Text
  pub description : Text
  pub created_at : Text

pub record OrderView : Type 0 where
  pub order_id : Text
  pub user_id : Text
  pub app_id : Text
  pub wallet_id : Text
  pub amount : Text
  pub currency_code : Text
  pub status : Text
  pub tx_id : Text
  pub subscription_id : Text
  pub idempotency_key : Text
  pub description : Text
  pub created_at : Text
  pub paid_at : Text
  pub updated_at : Text

pub record AuditEventView : Type 0 where
  pub event_id : Text
  pub event_type : Text
  pub trace_id : Text
  pub actor_id : Text
  pub resource : Text
  pub metadata : Text
  pub error : Text
  pub created_at : Text

module _ (lib : AdminLib) where
  unfoldable pub uuid_ptr_string : Option ℕ → Text
  uuid_ptr_string none = []
  uuid_ptr_string (some id) = lib.uuid_string id

  unfoldable pub string_ptr_value : Option Text → Text
  string_ptr_value none = []
  string_ptr_value (some value) = value

  unfoldable pub format_time : ℕ → Text
  format_time t = if t == 0 then [] else lib.format_utc t

  unfoldable pub time_ptr_string : Option ℕ → Text
  time_ptr_string none = []
  time_ptr_string (some t) = format_time t

  unfoldable pub wallet_to_json : WalletModel → WalletView
  wallet_to_json row = record {
    wallet_id = lib.uuid_string row.wallet_id;
    owner_id = lib.uuid_string row.owner_id;
    owner_type = row.owner_type;
    balance = lib.string_fixed row.balance;
    currency_code = row.currency_code;
    status = row.status;
    updated_at = format_time row.updated_at;
  }

  unfoldable pub transaction_to_json : TransactionModel → TransactionView
  transaction_to_json row = record {
    tx_id = lib.uuid_string row.tx_id;
    wallet_id = lib.uuid_string row.wallet_id;
    tx_type = row.tx_type;
    amount = lib.string_fixed row.amount;
    balance_after = lib.string_fixed row.balance_after;
    reference_id = uuid_ptr_string row.reference_id;
    idempotency_key = string_ptr_value row.idempotency_key;
    description = row.description;
    created_at = format_time row.created_at;
  }

  unfoldable pub order_to_json : OrderModel → OrderView
  order_to_json row = record {
    order_id = lib.uuid_string row.order_id;
    user_id = lib.uuid_string row.user_id;
    app_id = lib.uuid_string row.app_id;
    wallet_id = lib.uuid_string row.wallet_id;
    amount = lib.string_fixed row.amount;
    currency_code = row.currency_code;
    status = row.status;
    tx_id = uuid_ptr_string row.tx_id;
    subscription_id = uuid_ptr_string row.subscription_id;
    idempotency_key = string_ptr_value row.idempotency_key;
    description = row.description;
    created_at = format_time row.created_at;
    paid_at = time_ptr_string row.paid_at;
    updated_at = format_time row.updated_at;
  }

  unfoldable pub audit_event_to_json : AuditEventModel → AuditEventView
  audit_event_to_json row = record {
    event_id = lib.uuid_string row.event_id;
    event_type = row.event_type;
    trace_id = row.trace_id;
    actor_id = row.actor_id;
    resource = row.resource;
    metadata = row.metadata;
    error = row.error;
    created_at = format_time row.created_at;
  }

  -- The messages of grpc_service.go.

  unfoldable pub to_proto_virtual_order : WalletModel → WalletView
  to_proto_virtual_order row = record {
    wallet_id = lib.uuid_string row.wallet_id;
    owner_id = lib.uuid_string row.owner_id;
    owner_type = row.owner_type;
    balance = lib.string_fixed row.balance;
    currency_code = row.currency_code;
    status = row.status;
    updated_at = format_time row.updated_at;
  }

  unfoldable pub to_proto_wallet_transaction : TransactionModel → TransactionView
  to_proto_wallet_transaction row = record {
    tx_id = lib.uuid_string row.tx_id;
    wallet_id = lib.uuid_string row.wallet_id;
    tx_type = row.tx_type;
    amount = lib.string_fixed row.amount;
    balance_after = lib.string_fixed row.balance_after;
    reference_id = uuid_ptr_string row.reference_id;
    idempotency_key = string_ptr_value row.idempotency_key;
    description = row.description;
    created_at = format_time row.created_at;
  }

  unfoldable pub to_proto_order : OrderModel → OrderView
  to_proto_order row = record {
    order_id = lib.uuid_string row.order_id;
    user_id = lib.uuid_string row.user_id;
    app_id = lib.uuid_string row.app_id;
    wallet_id = lib.uuid_string row.wallet_id;
    amount = lib.string_fixed row.amount;
    currency_code = row.currency_code;
    status = row.status;
    tx_id = uuid_ptr_string row.tx_id;
    subscription_id = uuid_ptr_string row.subscription_id;
    idempotency_key = string_ptr_value row.idempotency_key;
    description = row.description;
    created_at = format_time row.created_at;
    paid_at = time_ptr_string row.paid_at;
    updated_at = format_time row.updated_at;
  }

  unfoldable pub to_proto_change_log : AuditEventModel → AuditEventView
  to_proto_change_log row = record {
    event_id = lib.uuid_string row.event_id;
    event_type = row.event_type;
    trace_id = row.trace_id;
    actor_id = row.actor_id;
    resource = row.resource;
    metadata = row.metadata;
    error = row.error;
    created_at = format_time row.created_at;
  }
