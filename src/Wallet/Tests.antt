-- ===== src/Wallet/Tests.antt =====
-- The wallet theorems at concrete requests: two wallets, of which the first holds 100.
use my_go_market.Prelude.{
  ℕ, ◌+◌, ◌*◌, Option, none, some, List, [], ◌∷◌, ◌≡◌, ◌≢◌, refl, ◌⊎◌, inl, inr, arith, ◌<◌, ◌==◌,
  if◌then◌else◌,
}
use my_go_market.Prelude.Int.{ℤ, pos, neg, ◌+ℤ◌, ◌≤ℤ◌}
use my_go_market.Prelude.Text.{Text, codes, trim_space}
use my_go_market.Errors.{Result, ok, err, idempotency_conflict}
use my_go_market.Prelude.{◌-◌, leb, false}
use my_go_market.Web.{Parsers, IsUser}
use my_go_market.Wallet.Handlers.{
  WalletChangeRequest, WalletTransferRequest, change_balance, transfer_handler,
}
use my_go_market.Wallet.Access.{IsOwned, change_balance_own, transfer_handler_own}
use my_go_market.Wallet.Domain.{
  Wallet, Transaction, user, consume, transfer_in, transfer_out, new_wallet, new_transaction,
}
use my_go_market.Wallet.Store.{Ledger, Env, wallet_at, stored_key, find_transaction_by_key}
use my_go_market.Wallet.Change.{apply_wallet_change, debit}
use my_go_market.Wallet.Transfer.{transfer, lock_order, Sides}
use my_go_market.Wallet.Ledger.{IsSound, balance_at, sum_of}
use my_go_market.Wallet.Idempotency.{
  IsTrimmedKey, Ends, apply_wallet_change-IsSound, apply_wallet_change_again,
  apply_wallet_change_conflict,
}
use my_go_market.Wallet.Transfers.{TransferEnds, transfer-IsSound}
use my_go_market.Wallet.History.{
  Request, open_wallet, credit_wallet, serve_all, serve, empty_ledger, serve_all-IsSound,
  empty_ledger-IsSound, history_reconciles, transfer_balances,
}

abbrev at : ℕ → Env
at n = record { now = n; fresh = 100 + 2 * n; fresh_second = 101 + 2 * n }

abbrev opening : List Request
opening =
    open_wallet (record { now = 1; fresh = 1; fresh_second = 0 }) 11 user (codes "cny")
    ∷ open_wallet (record { now = 2; fresh = 2; fresh_second = 0 }) 12 user (codes "cny")
    ∷ credit_wallet (at 3) 1 (pos 100) none (codes "top up") (codes "k1")
    ∷ []

abbrev opened : Ledger
opened = serve_all opening empty_ledger

opened-IsSound : IsSound opened
opened-IsSound = serve_all-IsSound opening empty_ledger-IsSound

history_reconciles_example :
    let l = serve_all opening empty_ledger in
    (balance_at 1 l ≡ sum_of 1 l.transactions) × (pos 0 ≤ℤ balance_at 1 l)
history_reconciles_example = history_reconciles opening 1

apply_wallet_change-IsSound_example :
    let (r, l') =
      apply_wallet_change (at 4) 1 consume (neg (pos 30)) none (codes "") (codes "k2") opened in
    IsSound l' × Ends 1 consume (neg (pos 30)) (codes "k2") opened r l'
apply_wallet_change-IsSound_example =
    apply_wallet_change-IsSound (at 4) 1 consume (neg (pos 30)) none (codes "") (codes "k2") opened
      opened-IsSound

transfer-IsSound_example :
    let (r, l') = transfer (at 4) 1 2 (pos 30) none (codes "") (codes "t1") opened in
    IsSound l' × TransferEnds 1 2 (pos 30) (codes "t1") opened r l'
transfer-IsSound_example =
    transfer-IsSound (at 4) 1 2 (pos 30) none (codes "") (codes "t1") opened opened-IsSound

abbrev first_wallet : Wallet
first_wallet = record (new_wallet 1 1 11 user (codes "CNY")) { balance = pos 100; updated_at = 3 }

first_found : wallet_at 1 opened ≡ some first_wallet
unfolding serve_all serve my_go_market.Table.lookup my_go_market.Table.find_by
    my_go_market.Table.update my_go_market.Wallet.Change.credit my_go_market.Wallet.Change.debit
    my_go_market.Wallet.Change.apply_wallet_change_in_tx my_go_market.Wallet.Change.move_balance
    my_go_market.Wallet.Change.replay_before_lock my_go_market.Wallet.Store.get_or_create_by_owner
    my_go_market.Wallet.Store.insert_wallet my_go_market.Wallet.Change.lock_and_change
    my_go_market.Wallet.Store.lock_wallet my_go_market.Wallet.Change.change_locked
    my_go_market.Wallet.Change.post_change my_go_market.Wallet.Store.create_transaction
    my_go_market.Wallet.Store.update_wallet my_go_market.Wallet.Store.new_transaction_model
    my_go_market.Wallet.Domain.new_transaction my_go_market.Wallet.Domain.new_wallet
    my_go_market.Prelude.Int.◌+ℤ◌ my_go_market.Prelude.Int.◌-ℤ◌ my_go_market.Prelude.Text.is_space
    my_go_market.Prelude.Text.text_eq my_go_market.Prelude.Text.to_upper
    my_go_market.Prelude.Text.trim_left my_go_market.Prelude.Text.trim_space find_transaction_by_key
    stored_key
first_found = refl

k2_trimmed : IsTrimmedKey (codes "k2")
unfolding stored_key trim_space
k2_trimmed = (refl, refl)

k3_unused : find_transaction_by_key (codes "k3") opened ≡ none
unfolding serve_all serve my_go_market.Table.lookup my_go_market.Table.find_by
    my_go_market.Table.update my_go_market.Wallet.Change.credit my_go_market.Wallet.Change.debit
    my_go_market.Wallet.Change.apply_wallet_change_in_tx my_go_market.Wallet.Change.move_balance
    my_go_market.Wallet.Change.replay_before_lock my_go_market.Wallet.Store.get_or_create_by_owner
    my_go_market.Wallet.Store.insert_wallet my_go_market.Wallet.Change.lock_and_change
    my_go_market.Wallet.Store.lock_wallet my_go_market.Wallet.Change.change_locked
    my_go_market.Wallet.Change.post_change my_go_market.Wallet.Store.create_transaction
    my_go_market.Wallet.Store.update_wallet my_go_market.Wallet.Store.new_transaction_model
    my_go_market.Wallet.Domain.new_transaction my_go_market.Wallet.Domain.new_wallet
    my_go_market.Prelude.Int.◌+ℤ◌ my_go_market.Prelude.Int.◌-ℤ◌ my_go_market.Prelude.Text.is_space
    my_go_market.Prelude.Text.text_eq my_go_market.Prelude.Text.to_upper
    my_go_market.Prelude.Text.trim_left my_go_market.Prelude.Text.trim_space find_transaction_by_key
    stored_key
k3_unused = refl

-- The charge of 30 under the key `k2`.
abbrev charged : Result (Wallet × Transaction) × Ledger
charged = apply_wallet_change (at 4) 1 consume (neg (pos 30)) none (codes "") (codes "k2") opened

abbrev charged_wallet : Wallet
charged_wallet = record (new_wallet 1 1 11 user (codes "CNY")) { balance = pos 70; updated_at = 4 }

abbrev charge : Transaction
charge = new_transaction 108 4 1 consume (neg (pos 30)) (pos 70) none (codes "k2") (codes "")

charged_ok : charged ≡ (ok (charged_wallet, charge), charged.1)
unfolding apply_wallet_change serve_all serve my_go_market.Table.lookup my_go_market.Table.find_by
    my_go_market.Table.update my_go_market.Wallet.Change.credit my_go_market.Wallet.Change.debit
    my_go_market.Wallet.Change.apply_wallet_change_in_tx my_go_market.Wallet.Change.move_balance
    my_go_market.Wallet.Change.replay_before_lock my_go_market.Wallet.Store.get_or_create_by_owner
    my_go_market.Wallet.Store.insert_wallet my_go_market.Wallet.Change.lock_and_change
    my_go_market.Wallet.Store.lock_wallet my_go_market.Wallet.Change.change_locked
    my_go_market.Wallet.Change.post_change my_go_market.Wallet.Store.create_transaction
    my_go_market.Wallet.Store.update_wallet my_go_market.Wallet.Store.new_transaction_model
    my_go_market.Wallet.Domain.new_transaction my_go_market.Wallet.Domain.new_wallet
    my_go_market.Prelude.Int.◌+ℤ◌ my_go_market.Prelude.Int.◌-ℤ◌ my_go_market.Prelude.Text.is_space
    my_go_market.Prelude.Text.text_eq my_go_market.Prelude.Text.to_upper
    my_go_market.Prelude.Text.trim_left my_go_market.Prelude.Text.trim_space find_transaction_by_key
    stored_key
charged_ok = refl

apply_wallet_change_again_example :
    apply_wallet_change (at 9) 1 consume (neg (pos 30)) none (codes "retry") (codes "k2") charged.1
    ≡ (ok (charged_wallet, charge), charged.1)
apply_wallet_change_again_example =
    apply_wallet_change_again (at 4) (at 9) 1 consume (neg (pos 30)) none none (codes "")
      (codes "retry") (codes "k2") opened opened-IsSound k2_trimmed charged_ok

not_zero : neg (pos 31) ≢ pos 0
unfolding my_go_market.Prelude.Int.◌-ℤ◌
not_zero e = ground arith

not_same : neg (pos 30) ≢ neg (pos 31)
unfolding my_go_market.Prelude.Int.◌-ℤ◌
not_same e = ground arith

apply_wallet_change_conflict_example :
    apply_wallet_change (at 9) 1 consume (neg (pos 31)) none (codes "") (codes "k2") charged.1
    ≡ (err idempotency_conflict, charged.1)
apply_wallet_change_conflict_example =
    apply_wallet_change_conflict (at 4) (at 9) 1 1 consume consume (neg (pos 30)) (neg (pos 31))
      none none (codes "") (codes "") (codes "k2") opened opened-IsSound k2_trimmed charged_ok
      not_zero (inr (inr not_same))

abbrev moved : Result Sides × Ledger
moved = transfer (at 4) 1 2 (pos 30) none (codes "") (codes "t1") opened

abbrev sides : Sides
sides = (
  new_transaction 108 4 1 transfer_out (neg (pos 30)) (pos 70) none (codes "t1:out") (codes ""),
  new_transaction 109 4 2 transfer_in (pos 30) (pos 30) none (codes "t1:in") (codes ""),
)

moved_ok : moved ≡ (ok sides, moved.1)
unfolding transfer my_go_market.Wallet.Transfer.transfer_in_tx
    my_go_market.Wallet.Transfer.transfer_locked my_go_market.Wallet.Transfer.lock_both
    my_go_market.Wallet.Transfer.lock_order my_go_market.Wallet.Transfer.post_transfer
    my_go_market.Wallet.Transfer.find_existing_transfer serve_all serve my_go_market.Table.lookup
    my_go_market.Table.find_by my_go_market.Table.update my_go_market.Wallet.Change.credit
    my_go_market.Wallet.Change.debit my_go_market.Wallet.Change.apply_wallet_change_in_tx
    my_go_market.Wallet.Change.move_balance my_go_market.Wallet.Change.replay_before_lock
    my_go_market.Wallet.Store.get_or_create_by_owner my_go_market.Wallet.Store.insert_wallet
    my_go_market.Wallet.Change.lock_and_change my_go_market.Wallet.Store.lock_wallet
    my_go_market.Wallet.Change.change_locked my_go_market.Wallet.Change.post_change
    my_go_market.Wallet.Store.create_transaction my_go_market.Wallet.Store.update_wallet
    my_go_market.Wallet.Store.new_transaction_model my_go_market.Wallet.Domain.new_transaction
    my_go_market.Wallet.Domain.new_wallet my_go_market.Prelude.Int.◌+ℤ◌
    my_go_market.Prelude.Int.◌-ℤ◌ my_go_market.Prelude.Text.is_space
    my_go_market.Prelude.Text.text_eq my_go_market.Prelude.Text.to_upper
    my_go_market.Prelude.Text.trim_left my_go_market.Prelude.Text.trim_space find_transaction_by_key
    stored_key
moved_ok = refl

transfer_balances_example :
    (moved.1 ≡ opened)
    ⊎ ((balance_at 2 moved.1
          ≡ balance_at 2 opened
            +ℤ (if 1 == 2 then neg (pos 30) else pos 0)
            +ℤ (if 2 == 2 then pos 30 else pos 0))
        × (pos 30 ≤ℤ balance_at 1 opened))
transfer_balances_example =
    transfer_balances (at 4) 1 2 (pos 30) none (codes "") (codes "t1") opened 2 opened-IsSound
      (omega arith) moved_ok

-- A library that reads a text by its first letter: a user from `a` on as 11 and more, a wallet as
-- its digit, and every amount as 30.
abbrev first_letter : Text → Option ℕ
first_letter [] = none
first_letter (c ∷ cs) = some (if leb 97 c then c - 86 else c - 48)

abbrev lib : Parsers
lib = record { parse_uuid = first_letter; new_from_string = λ t. some (pos 30) }

abbrev charge_request : Option WalletChangeRequest
charge_request = some (record {
  amount = codes "30";
  reference_id = codes "";
  idempotency_key = codes "k2";
  description = codes "";
})

abbrev transfer_request : Option WalletTransferRequest
transfer_request = some (record {
  from_wallet_id = codes "1";
  to_wallet_id = codes "2";
  amount = codes "30";
  reference_id = codes "";
  idempotency_key = codes "t1";
  description = codes "";
})

change_balance_own_example :
    let (reply, l') =
      change_balance lib (at 4) false (codes "a") (codes "1") charge_request opened in
    (balance_at 1 l' ≡ balance_at 1 opened)
    ⊎ ((u : ℕ) × IsUser lib (codes "a") u × IsOwned 1 u opened)
change_balance_own_example =
    change_balance_own lib (at 4) false (codes "a") (codes "1") charge_request opened 1
      opened-IsSound

transfer_handler_own_example :
    let (reply, l') = transfer_handler lib (at 4) (codes "a") transfer_request opened in
    (balance_at 2 opened ≤ℤ balance_at 2 l')
    ⊎ ((u : ℕ) × IsUser lib (codes "a") u × IsOwned 2 u opened)
transfer_handler_own_example =
    transfer_handler_own lib (at 4) (codes "a") transfer_request opened 2 opened-IsSound
