-- ===== src/Wallet/Store.antt =====
-- services/wallet/repository/wallet_repository.go: the rows of the two tables that the wallet owns,
-- and the single statements over them. The only errors of the database here are a missing row and
-- a refused insert.
use mathlib.Core.Option
use my_go_market.Prelude.{
  ℕ, Bool, false, Option, none, some, List, [], ◌∷◌, ◌&&◌, ◌||◌, ◌==◌, if◌then◌else◌,
}
use my_go_market.Prelude.Int.{ℤ}
use my_go_market.Prelude.Text.{Text, codes, text_eq, is_empty, trim_space, to_upper}
use my_go_market.Errors.{Result, ok, err, record_not_found, unique_violation}
use my_go_market.Table.{find_by, lookup, update}
use my_go_market.Wallet.Domain.{Wallet, OwnerType, owner_type_eq, TxType, new_wallet, Transaction}

-- A row of wallet_transactions: an empty key is stored as NULL.
pub record TransactionModel : Type 0 where
  pub tx_id : ℕ
  pub wallet_id : ℕ
  pub tx_type : TxType
  pub amount : ℤ
  pub balance_after : ℤ
  pub reference_id : Option ℕ
  pub idempotency_key : Option Text
  pub description : Text
  pub created_at : ℕ

pub record Ledger : Type 0 where
  pub wallets : List Wallet
  pub transactions : List TransactionModel

-- What an operation draws from outside: a clock reading and fresh ids.
pub record Env : Type 0 where
  pub now : ℕ
  pub fresh : ℕ
  pub fresh_second : ℕ

abbrev pub wallet_key : Wallet → ℕ
wallet_key w = w.id

-- `walletRow WHERE wallet_id = ?`
abbrev pub wallet_at : ℕ → Ledger → Option Wallet
wallet_at k l = lookup wallet_key k l.wallets

abbrev or_not_found : {A : Type 0} → Option A → Result A
or_not_found none = err record_not_found
or_not_found (some a) = ok a

unfoldable pub normalize_currency : Text → Text
normalize_currency code =
    let trimmed = trim_space (to_upper code) in if is_empty trimmed then codes "COIN" else trimmed

-- `strings.TrimSpace`, and NULL for the empty key
unfoldable pub stored_key : Text → Option Text
stored_key key = let trimmed = trim_space key in if is_empty trimmed then none else some trimmed

unfoldable pub new_transaction_model : Transaction → TransactionModel
new_transaction_model t = record {
  tx_id = t.tx_id;
  wallet_id = t.wallet_id;
  tx_type = t.tx_type;
  amount = t.amount;
  balance_after = t.balance_after;
  reference_id = t.reference_id;
  idempotency_key = stored_key t.idempotency_key;
  description = t.description;
  created_at = t.created_at;
}

abbrev pub key_or_empty : Option Text → Text
key_or_empty none = []
key_or_empty (some key) = key

unfoldable pub to_domain : TransactionModel → Transaction
to_domain m = record {
  tx_id = m.tx_id;
  wallet_id = m.wallet_id;
  tx_type = m.tx_type;
  amount = m.amount;
  balance_after = m.balance_after;
  reference_id = m.reference_id;
  idempotency_key = key_or_empty m.idempotency_key;
  description = m.description;
  created_at = m.created_at;
}

-- `idempotency_key = ?`: NULL equals nothing.
abbrev pub key_matches : Text → Option Text → Bool
key_matches key none = false
key_matches key (some k) = text_eq k key

abbrev pub has_key : Text → TransactionModel → Bool
has_key key m = key_matches key m.idempotency_key

unfoldable pub find_row_by_key : Text → List TransactionModel → Option TransactionModel
find_row_by_key key rows = find_by (has_key key) rows

-- `none` is gorm.ErrRecordNotFound.
unfoldable pub find_transaction_by_key : Text → Ledger → Option Transaction
unfolding find_row_by_key
find_transaction_by_key key l = Option.map to_domain (find_row_by_key key l.transactions)

unfoldable pub find_wallet_by_id : ℕ → Ledger → Result Wallet
find_wallet_by_id k l = or_not_found (wallet_at k l)

-- The same row; the lock itself is the serialisation of transactions on one wallet.
unfoldable pub lock_wallet : ℕ → Ledger → Result Wallet
lock_wallet k l = or_not_found (wallet_at k l)

abbrev owned_by : ℕ → OwnerType → Text → Wallet → Bool
owned_by owner_id owner_type code w =
    w.owner_id == owner_id && owner_type_eq w.owner_type owner_type && text_eq w.currency_code code

unfoldable pub find_by_owner : ℕ → OwnerType → Text → Ledger → Result Wallet
unfolding normalize_currency
find_by_owner owner_id owner_type code l =
    or_not_found (find_by (owned_by owner_id owner_type (normalize_currency code)) l.wallets)

-- PRIMARY KEY (wallet_id) and UNIQUE (owner_id, currency_code) of script/init_better.sql
abbrev pub conflicts_with : Wallet → Wallet → Bool
conflicts_with w v =
    v.id == w.id || (v.owner_id == w.owner_id && text_eq v.currency_code w.currency_code)

-- `ON CONFLICT DO NOTHING`
unfoldable pub insert_wallet : Wallet → Ledger → Ledger
insert_wallet w l = elim (find_by (conflicts_with w) l.wallets) [
  | some _ ↦ l
  | none ↦ record l { wallets = w ∷ l.wallets }
]

-- The insert and the read are two statements: a failed read leaves the insert in place.
unfoldable pub get_or_create_by_owner : Env → ℕ → OwnerType → Text → Ledger → Result Wallet × Ledger
unfolding new_wallet normalize_currency
get_or_create_by_owner env owner_id owner_type code l =
    let currency = normalize_currency code in
    let l' = insert_wallet (new_wallet env.fresh env.now owner_id owner_type currency) l in
    (find_by_owner owner_id owner_type currency l', l')

abbrev pub set_balance : Wallet → Wallet → Wallet
set_balance w row = record row { balance = w.balance; updated_at = w.updated_at }

unfoldable pub update_wallet : Wallet → Ledger → Ledger
update_wallet w l = record l { wallets = update wallet_key w.id (set_balance w) l.wallets }

abbrev pub clashes_with : TransactionModel → TransactionModel → Bool
clashes_with m row =
    row.tx_id == m.tx_id || (elim m.idempotency_key [ none ↦ false | some key ↦ has_key key row ])

-- PRIMARY KEY (tx_id) and UNIQUE (idempotency_key)
unfoldable pub create_transaction : TransactionModel → Ledger → Result Ledger
create_transaction m l = elim (find_by (clashes_with m) l.transactions) [
  | some _ ↦ err unique_violation
  | none ↦ ok (record l { transactions = m ∷ l.transactions })
]
