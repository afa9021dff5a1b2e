-- ===== src/Wallet/Transfer.antt =====
-- services/wallet/repository/wallet_repository.go: Transfer, and the list of a wallet's transactions.
use mathlib.Core.List.{map}
use my_go_market.Prelude.{
  ℕ, not, Option, none, some, List, [], ◌∷◌, ◌++◌, ◌||◌, ltb, ◌==◌, if◌then◌else◌, take, drop,
}
use my_go_market.Prelude.Int.{ℤ, pos, neg, leb_ℤ}
use my_go_market.Prelude.Text.{Text, codes, is_empty}
use my_go_market.Errors.{
  Result, ok, err, record_not_found, idempotency_conflict, invalid_transfer, fail_if, transaction,
  ◌>>=◌, ◌>>◌,
}
use my_go_market.Wallet.Domain.{
  Wallet, transfer_in, transfer_out, deduct, deposit, Transaction, new_transaction,
}
use my_go_market.Wallet.Store.{
  Ledger, Env, TransactionModel, to_domain, new_transaction_model, find_transaction_by_key,
  lock_wallet, update_wallet, create_transaction,
}
use my_go_market.Wallet.Change.{same_transaction}

abbrev pub out_side : Text
out_side = codes "out"

abbrev pub in_side : Text
in_side = codes "in"

-- `fmt.Sprintf("%s:%s", idempotencyKey, side)`
abbrev pub transfer_key : (key side : Text) → Text
transfer_key key side = key ++ (b':' ∷ side)

-- The out and the in transaction of a transfer.
abbrev pub Sides : Type 0
Sides = Transaction × Transaction

-- `record_not_found` where either side is missing
unfoldable pub find_existing_transfer : (key : Text) (from to : ℕ) → ℤ → Ledger → Result Sides
unfolding same_transaction
find_existing_transfer key from to amount l =
    elim (find_transaction_by_key (transfer_key key out_side) l) [
      | none ↦ err record_not_found
      | some out ↦ elim (find_transaction_by_key (transfer_key key in_side) l) [
        | none ↦ err record_not_found
        | some inward ↦ do
          fail_if
              (not (same_transaction out from transfer_out (neg amount))
                || not (same_transaction inward to transfer_in amount))
              idempotency_conflict
          ok (out, inward)
      ]
    ]

-- The key of one side; none is kept where the caller gave none.
abbrev pub side_key : (key side : Text) → Text
side_key key side = if is_empty key then [] else transfer_key key side

-- What `Transfer` writes once both wallets are locked.
unfoldable pub post_transfer :
    Env → (from to : Wallet) → ℤ → Option ℕ → (desc key : Text) → Ledger → Result (Sides × Ledger)
unfolding deduct deposit new_transaction
post_transfer env from to amount ref_id desc key l = do
  payer ← deduct env.now amount from
  payee ← deposit env.now amount to
  let out =
      new_transaction env.fresh env.now payer.id transfer_out (neg amount) payer.balance ref_id
        (side_key key out_side) desc
  let inward =
      new_transaction env.fresh_second env.now payee.id transfer_in amount payee.balance ref_id
        (side_key key in_side) desc
  l' ← create_transaction (new_transaction_model out) (update_wallet payee (update_wallet payer l))
  l'' ← create_transaction (new_transaction_model inward) l'
  ok ((out, inward), l'')

-- The wallets in the order in which they are locked: the smaller id first.
unfoldable pub lock_order : (from to : ℕ) → ℕ × ℕ
lock_order from to = if ltb to from then (to, from) else (from, to)

-- Locks in that order and returns the payer and the payee.
unfoldable pub lock_both : (from to : ℕ) → Ledger → Result (Wallet × Wallet)
unfolding lock_order
lock_both from to l = do
  let ids = lock_order from to
  first ← lock_wallet ids.0 l
  second ← lock_wallet ids.1 l
  ok (if ids.0 == from then (first, second) else (second, first))

-- A recorded transfer is returned, a missing one goes on, any other error is returned.
abbrev pub unless_recorded :
    Result Sides → Ledger → Result (Sides × Ledger) → Result (Sides × Ledger)
unless_recorded (ok sides) l rest = ok (sides, l)
unless_recorded (err record_not_found) l rest = rest
unless_recorded (err e) l rest = err e

-- The read of the key, which is skipped where the caller gave none.
abbrev pub with_key_read :
    (key : Text) (from to : ℕ) → ℤ → Ledger → Result (Sides × Ledger) → Result (Sides × Ledger)
with_key_read key from to amount l rest =
    if is_empty key
    then rest
    else unless_recorded (find_existing_transfer key from to amount l) l rest

unfoldable pub transfer_locked :
    Env → (from to : ℕ) → ℤ → Option ℕ → (desc key : Text) → Ledger → Result (Sides × Ledger)
transfer_locked env from to amount ref_id desc key l = do
  wallets ← lock_both from to l
  with_key_read key from to amount l
      (post_transfer env wallets.0 wallets.1 amount ref_id desc key l)

unfoldable pub transfer_in_tx :
    Env → (from to : ℕ) → ℤ → Option ℕ → (desc key : Text) → Ledger → Result (Sides × Ledger)
transfer_in_tx env from to amount ref_id desc key l =
    with_key_read key from to amount l (transfer_locked env from to amount ref_id desc key l)

unfoldable pub transfer :
    Env → (from to : ℕ) → ℤ → Option ℕ → (desc key : Text) → Ledger → Result Sides × Ledger
transfer env from to amount ref_id desc key l =
    if from == to || leb_ℤ amount (pos 0)
    then (err invalid_transfer, l)
    else transaction (transfer_in_tx env from to amount ref_id desc key) l

-- The rows of one wallet; they stand newest first.
rows_of : ℕ → List TransactionModel → List TransactionModel
rows_of k [] = []
rows_of k (m ∷ ms) = if m.wallet_id == k then m ∷ rows_of k ms else rows_of k ms

unfoldable pub list_transactions : (wallet_id limit offset : ℕ) → Ledger → List Transaction
unfolding rows_of
list_transactions wallet_id limit offset l =
    map to_domain (take limit (drop offset (rows_of wallet_id l.transactions)))
