-- ===== src/Wallet/Domain.antt =====
-- services/wallet/domain: wallet.go and transaction.go. Amounts are whole numbers of 0.0001 coin,
-- the unit of the DECIMAL(18, 4) columns; ids are numbers, ordered as their strings are; a
-- function that calls uuid.New or time.Now takes the id and the time.
use my_go_market.Prelude.{ℕ, Bool, true, false, Option, arith, ◌≡◌, ◌↔◌, ◌==◌, if◌then◌else◌}
use my_go_market.Prelude.Int.{ℤ, pos, ◌+ℤ◌, ◌-ℤ◌, ltb_ℤ, leb_ℤ}
use my_go_market.Prelude.Text.{Text}
use my_go_market.Errors.{
  Result, ok, fail_if, ◌>>◌, wallet_inactive, invalid_amount, insufficient_balance,
}

pub data OwnerType : Type 0 where
  user group : OwnerType

pub data WalletStatus : Type 0 where
  active frozen : WalletStatus

pub data TxType : Type 0 where
  recharge consume refund transfer_in transfer_out : TxType

abbrev pub is_active : WalletStatus → Bool
is_active active = true
is_active frozen = false

abbrev pub owner_type_eq : OwnerType → OwnerType → Bool
owner_type_eq user user = true
owner_type_eq group group = true
owner_type_eq _ _ = false

abbrev tx_type_code : TxType → ℕ
tx_type_code recharge = 0
tx_type_code consume = 1
tx_type_code refund = 2
tx_type_code transfer_in = 3
tx_type_code transfer_out = 4

abbrev pub tx_type_eq : TxType → TxType → Bool
tx_type_eq s t = tx_type_code s == tx_type_code t

pub tx_type_eq_iff : (s t : TxType) → (tx_type_eq s t ≡ true) ↔ (s ≡ t)
tx_type_eq_iff s t = ground arith

pub record Wallet : Type 0 where
  pub id : ℕ
  pub owner_id : ℕ
  pub owner_type : OwnerType
  pub balance : ℤ
  pub currency_code : Text
  pub status : WalletStatus
  pub updated_at : ℕ

unfoldable pub new_wallet : (id now owner_id : ℕ) → OwnerType → Text → Wallet
new_wallet id now owner_id owner_type currency_code = record {
  id = id;
  owner_id = owner_id;
  owner_type = owner_type;
  balance = pos 0;
  currency_code = currency_code;
  status = active;
  updated_at = now;
}

unfoldable pub deduct : (now : ℕ) (amount : ℤ) → Wallet → Result Wallet
deduct now amount w = do
  fail_if (if is_active w.status then false else true) wallet_inactive
  fail_if (leb_ℤ amount (pos 0)) invalid_amount
  fail_if (ltb_ℤ w.balance amount) insufficient_balance
  ok (record w { balance = w.balance -ℤ amount; updated_at = now })

unfoldable pub deposit : (now : ℕ) (amount : ℤ) → Wallet → Result Wallet
deposit now amount w = do
  fail_if (if is_active w.status then false else true) wallet_inactive
  fail_if (leb_ℤ amount (pos 0)) invalid_amount
  ok (record w { balance = w.balance +ℤ amount; updated_at = now })

pub record Transaction : Type 0 where
  pub tx_id : ℕ
  pub wallet_id : ℕ
  pub tx_type : TxType
  pub amount : ℤ
  pub balance_after : ℤ
  pub reference_id : Option ℕ
  pub idempotency_key : Text
  pub description : Text
  pub created_at : ℕ

unfoldable pub new_transaction :
    (id now wallet_id : ℕ)
    → TxType
    → (amount balance_after : ℤ) → Option ℕ
    → (idempotency_key desc : Text) → Transaction
new_transaction id now wallet_id tx_type amount balance_after ref_id idempotency_key desc = record {
  tx_id = id;
  wallet_id = wallet_id;
  tx_type = tx_type;
  amount = amount;
  balance_after = balance_after;
  reference_id = ref_id;
  idempotency_key = idempotency_key;
  description = desc;
  created_at = now;
}
