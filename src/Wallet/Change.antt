-- ===== src/Wallet/Change.antt =====
-- services/wallet/repository/wallet_repository.go: Credit, Debit, DebitInTx and the change of one
-- wallet that they share. A function that runs inside a database transaction returns its error
-- alone, and the caller's `transaction` then restores the tables.
use my_go_market.Prelude.{ℕ, Bool, not, Option, none, some, ◌&&◌, ◌||◌, ◌==◌, if◌then◌else◌}
use my_go_market.Prelude.Int.{ℤ, pos, neg, abs, ltb_ℤ, eqb_ℤ}
use my_go_market.Prelude.Text.{Text, is_empty}
use my_go_market.Errors.{
  Result, ok, err, invalid_amount, idempotency_conflict, fail_if, transaction, ◌>>=◌, ◌>>◌,
}
use my_go_market.Wallet.Domain.{
  Wallet, TxType, recharge, consume, tx_type_eq, deduct, deposit, Transaction, new_transaction,
}
use my_go_market.Wallet.Store.{
  Ledger, Env, new_transaction_model, find_transaction_by_key, find_wallet_by_id, lock_wallet,
  update_wallet, create_transaction,
}

-- What a change of a wallet returns inside a transaction.
abbrev pub Changed : Type 0
Changed = Result ((Wallet × Transaction) × Ledger)

unfoldable pub same_transaction : Transaction → ℕ → TxType → ℤ → Bool
same_transaction t wallet_id tx_type amount =
    t.wallet_id == wallet_id && tx_type_eq t.tx_type tx_type && eqb_ℤ t.amount amount

-- `Deposit` of a positive amount, `Deduct` of the absolute value of any other
unfoldable pub move_balance : (now : ℕ) (signed_amount : ℤ) → Wallet → Result Wallet
unfolding deposit deduct
move_balance now signed_amount w =
    if ltb_ℤ (pos 0) signed_amount
    then deposit now signed_amount w
    else deduct now (abs signed_amount) w

-- The last part of `applyWalletChangeInTx`, behind both reads of the key.
unfoldable pub post_change :
    Env → Wallet → TxType → ℤ → Option ℕ → (desc key : Text) → Ledger → Changed
unfolding move_balance new_transaction
post_change env locked tx_type amount ref_id desc key l = do
  wallet ← move_balance env.now amount locked
  let t = new_transaction env.fresh env.now wallet.id tx_type amount wallet.balance ref_id key desc
  l' ← create_transaction (new_transaction_model t) (update_wallet wallet l)
  ok ((wallet, t), l')

-- The read of the key under the lock.
unfoldable pub change_locked :
    Env → Wallet → (wallet_id : ℕ) → TxType → ℤ → Option ℕ → (desc key : Text) → Ledger → Changed
unfolding same_transaction
change_locked env wallet wallet_id tx_type amount ref_id desc key l =
    if is_empty key
    then post_change env wallet tx_type amount ref_id desc key l
    else elim (find_transaction_by_key key l) [
      | none ↦ post_change env wallet tx_type amount ref_id desc key l
      | some existing ↦ do
        fail_if (not (same_transaction existing wallet_id tx_type amount)) idempotency_conflict
        ok ((wallet, existing), l)
    ]

unfoldable pub lock_and_change :
    Env → (wallet_id : ℕ) → TxType → ℤ → Option ℕ → (desc key : Text) → Ledger → Changed
lock_and_change env wallet_id tx_type amount ref_id desc key l = do
  wallet ← lock_wallet wallet_id l
  change_locked env wallet wallet_id tx_type amount ref_id desc key l

-- The replay of a recorded key before the lock, which reads the wallet without one.
unfoldable pub replay_before_lock : Transaction → (wallet_id : ℕ) → TxType → ℤ → Ledger → Changed
replay_before_lock existing wallet_id tx_type amount l = do
  fail_if
      (not (existing.wallet_id == wallet_id)
        || not (eqb_ℤ existing.amount amount)
        || not (tx_type_eq existing.tx_type tx_type))
      idempotency_conflict
  wallet ← find_wallet_by_id existing.wallet_id l
  ok ((wallet, existing), l)

unfoldable pub apply_wallet_change_in_tx :
    Env → (wallet_id : ℕ) → TxType → ℤ → Option ℕ → (desc key : Text) → Ledger → Changed
apply_wallet_change_in_tx env wallet_id tx_type amount ref_id desc key l =
    if is_empty key
    then lock_and_change env wallet_id tx_type amount ref_id desc key l
    else elim (find_transaction_by_key key l) [
      | none ↦ lock_and_change env wallet_id tx_type amount ref_id desc key l
      | some existing ↦ replay_before_lock existing wallet_id tx_type amount l
    ]

unfoldable pub apply_wallet_change :
    Env
    → (wallet_id : ℕ) → TxType
    → ℤ
    → Option ℕ
    → (desc key : Text) → Ledger
    → Result (Wallet × Transaction) × Ledger
apply_wallet_change env wallet_id tx_type amount ref_id desc key l =
    if eqb_ℤ amount (pos 0)
    then (err invalid_amount, l)
    else transaction (apply_wallet_change_in_tx env wallet_id tx_type amount ref_id desc key) l

unfoldable pub credit :
    Env
    → (wallet_id : ℕ) → ℤ
    → Option ℕ
    → (desc key : Text) → Ledger
    → Result (Wallet × Transaction) × Ledger
unfolding apply_wallet_change
credit env wallet_id amount = apply_wallet_change env wallet_id recharge amount

unfoldable pub debit :
    Env
    → (wallet_id : ℕ) → ℤ
    → Option ℕ
    → (desc key : Text) → Ledger
    → Result (Wallet × Transaction) × Ledger
unfolding apply_wallet_change
debit env wallet_id amount = apply_wallet_change env wallet_id consume (neg amount)

-- `DebitInTx`, inside the caller's transaction
unfoldable pub debit_in_tx :
    Env → (wallet_id : ℕ) → ℤ → Option ℕ → (desc key : Text) → Ledger → Changed
debit_in_tx env wallet_id amount = apply_wallet_change_in_tx env wallet_id consume (neg amount)
