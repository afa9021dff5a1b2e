-- ===== src/Wallet/Records.antt =====
-- What a posting does to the tables (wallet_repository.go, applyWalletChangeInTx).
use mathlib.Core.Option
use my_go_market.Prelude.{
  ℕ, true, false, Option, none, some, List, ◌∷◌, ◌≡◌, refl, ◌==◌, if◌then◌else◌, arith, ap, sym,
  ◌∙◌, Bool-cases, ◌⊎◌, inl, inr, ==_iff,
}
use my_go_market.Prelude.Int.{ℤ, pos, ◌+ℤ◌, ◌-ℤ◌, ◌≤ℤ◌, int_laws}
use my_go_market.Prelude.Text.{Text, is_empty}
use my_go_market.Errors.{ok, >>=-eq-ok}
use my_go_market.Table.{find_by, lookup, update, lookup-update_self}
use my_go_market.Wallet.Domain.{Wallet, TxType, Transaction, active, new_transaction}
use my_go_market.Wallet.Store.{
  Ledger, Env, wallet_key, clashes_with, wallet_at, TransactionModel, new_transaction_model,
  set_balance, update_wallet, create_transaction, find_transaction_by_key,
}
use my_go_market.Wallet.Change.{move_balance, post_change}
use my_go_market.Wallet.Ledger.{
  balance_at, share, Posted, balance_at-update_wallet, create_transaction_lem,
}

-- A balance that moves does so by the signed amount, in an active wallet, and not below zero.
pub move_balance_lem :
    (now : ℕ) (amount : ℤ) (w : Wallet) {v : Wallet}
    → move_balance now amount w ≡ ok v
    → (v.id ≡ w.id)
      × (v.balance ≡ w.balance +ℤ amount)
      × (w.status ≡ active)
      × (pos 0 ≤ℤ w.balance → pos 0 ≤ℤ v.balance)
unfolding move_balance ◌+ℤ◌ ◌-ℤ◌
move_balance_lem now amount w h = ground arith

-- A move changes the balance and the time alone.
move_balance-set_balance :
    (now : ℕ) (amount : ℤ) (w : Wallet) {v : Wallet}
    → move_balance now amount w ≡ ok v
    → set_balance v w ≡ v
unfolding move_balance
move_balance-set_balance now amount w h = ground arith

plus_zero : (b : ℤ) → b +ℤ pos 0 ≡ b
plus_zero b = omega int_laws

pub balance_at-found :
    (k : ℕ) (w : Wallet) (l : Ledger) → wallet_at k l ≡ some w → balance_at k l ≡ w.balance
unfolding balance_at
balance_at-found k w l found = rw found

-- Writing the moved balance of a wallet moves what `balance_at` reads, there and nowhere else.
balance_at-moved :
    (k : ℕ) (amount : ℤ) (w v : Wallet) (l : Ledger)
    → wallet_at w.id l ≡ some w
    → v.id ≡ w.id
    → v.balance ≡ w.balance +ℤ amount
    → balance_at k (update_wallet v l) ≡ balance_at k l +ℤ (if w.id == k then amount else pos 0)
balance_at-moved k amount w v l found same moved =
    balance_at-update_wallet k v w l (rw same found) ∙ elim (Bool-cases (w.id == k)) [
      | inl here ↦ ground (arith, balance_at-found w.id w l found, ==_iff w.id k)
      | inr there ↦ ground (arith, plus_zero (balance_at k l))
    ]

-- `balance_at` reads the wallets alone.
balance_at-wallets :
    (k : ℕ) (l : Ledger) (rows : List TransactionModel)
    → balance_at k (record l { transactions = rows }) ≡ balance_at k l
unfolding balance_at
balance_at-wallets k l rows = refl

-- A balance written under the wallet's lock, and the row recorded with it, are a posting.
pub written-Posted :
    (w v : Wallet) (m : TransactionModel) (l : Ledger) {l' : Ledger}
    → wallet_at w.id l ≡ some w
    → v.id ≡ w.id
    → v.balance ≡ w.balance +ℤ m.amount
    → pos 0 ≤ℤ v.balance
    → m.wallet_id ≡ w.id
    → create_transaction m (update_wallet v l) ≡ ok l'
    → Posted l m l'
unfolding update_wallet
written-Posted w v m l {l'} found same moved covered named created = record {
  recorded = ap (λ (x : Ledger). x.transactions) stored.0;
  moved = shift;
  covered = ground (arith, shift m.wallet_id, balance_at-found w.id w l found);
  fresh = stored.1;
}
  where
    stored :
        (l' ≡ record (update_wallet v l) { transactions = m ∷ l.transactions })
        × (find_by (clashes_with m) l.transactions ≡ none)
    stored = create_transaction_lem m (update_wallet v l) created

    shift : (k : ℕ) → balance_at k l' ≡ balance_at k l +ℤ share k m
    shift k =
        ap (balance_at k) stored.0
        ∙ balance_at-wallets k (update_wallet v l) (m ∷ l.transactions)
        ∙ balance_at-moved k m.amount w v l found same moved
        ∙ rw named

-- What `post_change` has done where it succeeds, call by call.
post_change_steps :
    (env : Env) (w : Wallet) (ty : TxType) (amount : ℤ) (ref : Option ℕ) (desc key : Text)
    (l : Ledger) {v : Wallet} {t : Transaction} {l' : Ledger}
    → post_change env w ty amount ref desc key l ≡ ok ((v, t), l')
    → (move_balance env.now amount w ≡ ok v)
      × (t ≡ new_transaction env.fresh env.now v.id ty amount v.balance ref key desc)
      × (create_transaction (new_transaction_model t) (update_wallet v l) ≡ ok l')
unfolding post_change
post_change_steps env w ty amount ref desc key l h =
    let (v', moved, rest) = >>=-eq-ok (move_balance env.now amount w) _ h in
    let t' = new_transaction env.fresh env.now v'.id ty amount v'.balance ref key desc in
    let (l1, created, done) =
      >>=-eq-ok (create_transaction (new_transaction_model t') (update_wallet v' l)) _ rest in
    (cc, cc, cc)

-- The wallet that is read after its row was written.
wallet_at-written :
    (now : ℕ) (amount : ℤ) (w v : Wallet) (m : TransactionModel) (l : Ledger) {l' : Ledger}
    → wallet_at w.id l ≡ some w
    → v.id ≡ w.id
    → move_balance now amount w ≡ ok v
    → create_transaction m (update_wallet v l) ≡ ok l'
    → wallet_at w.id l' ≡ some v
unfolding update_wallet
wallet_at-written now amount w v m l {l'} found same moved created =
    ap (wallet_at w.id) (create_transaction_lem m (update_wallet v l) created).0
    ∙ ap (λ j. lookup wallet_key w.id (update wallet_key j (set_balance v) l.wallets)) same
    ∙ lookup-update_self wallet_key w.id (set_balance v) l.wallets (λ r. refl)
    ∙ ap (Option.map (set_balance v)) found
    ∙ ap some (move_balance-set_balance now amount w moved)

-- What a row says about the change that it records.
pub record Records (t : Transaction) (v : Wallet) (ty : TxType) (amount : ℤ) (key : Text)
    : Type 0 where
  pub of_wallet : t.wallet_id ≡ v.id
  pub of_type : t.tx_type ≡ ty
  pub of_amount : t.amount ≡ amount
  pub of_key : t.idempotency_key ≡ key
  pub snapshot : t.balance_after ≡ v.balance

-- A posted change: its row was added, and the wallet's balance moved by the row's amount.
pub post_change_lem :
    (env : Env) (w : Wallet) (ty : TxType) (amount : ℤ) (ref : Option ℕ) (desc key : Text)
    (l : Ledger) {v : Wallet} {t : Transaction} {l' : Ledger}
    → wallet_at w.id l ≡ some w
    → pos 0 ≤ℤ w.balance
    → post_change env w ty amount ref desc key l ≡ ok ((v, t), l')
    → Posted l (new_transaction_model t) l'
      × Records t v ty amount key
      × (v.id ≡ w.id)
      × (w.status ≡ active)
      × (wallet_at w.id l' ≡ some v)
unfolding new_transaction new_transaction_model
post_change_lem env w ty amount ref desc key l {v} {t} {l'} found covered h =
    let (moved, made, created) = post_change_steps env w ty amount ref desc key l h in
    let (same, sum, act, kept) = move_balance_lem env.now amount w moved in
    let rec : Records t v ty amount key = rw made (record {
      of_wallet = refl;
      of_type = refl;
      of_amount = refl;
      of_key = refl;
      snapshot = refl;
    }) in
    (
      written-Posted w v (new_transaction_model t) l found same
          (sum ∙ ap (λ a. w.balance +ℤ a) (sym rec.of_amount)) (kept covered) (rec.of_wallet ∙ same)
          created,
      rec,
      same,
      act,
      wallet_at-written env.now amount w v (new_transaction_model t) l found same moved created,
    )

-- The key was recorded for the same change, whose row is returned.
pub record Replayed (k : ℕ) (ty : TxType) (amount : ℤ) (key : Text) (l : Ledger) (v : Wallet)
    (t : Transaction) (l' : Ledger) : Type 0 where
  pub given : is_empty key ≡ false
  pub known : find_transaction_by_key key l ≡ some t
  pub wallet : wallet_at k l ≡ some v
  pub same_wallet : t.wallet_id ≡ k
  pub same_type : t.tx_type ≡ ty
  pub same_amount : t.amount ≡ amount
  pub unchanged : l' ≡ l

-- A new row was posted on an active wallet, and the key was not recorded before.
pub record Fresh (k : ℕ) (ty : TxType) (amount : ℤ) (key : Text) (l : Ledger) (v : Wallet)
    (t : Transaction) (l' : Ledger) : Type 0 where
  pub posted : Posted l (new_transaction_model t) l'
  pub records : Records t v ty amount key
  pub wallet : v.id ≡ k
  pub written : wallet_at k l' ≡ some v
  pub unused : (is_empty key ≡ true) ⊎ (find_transaction_by_key key l ≡ none)
