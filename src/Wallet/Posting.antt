-- ===== src/Wallet/Posting.antt =====
-- What one change of a wallet does to the tables (wallet_repository.go, applyWalletChangeInTx).
use my_go_market.Prelude.{
  ℕ, true, false, Option, none, some, ◌≡◌, arith, ap, sym, ◌∙◌, Bool-cases, Option-cases, ◌⊎◌, inl,
  inr,
}
use my_go_market.Prelude.Int.{ℤ, eqb_ℤ_iff}
use my_go_market.Prelude.Text.{Text, is_empty}
use my_go_market.Errors.{ok, >>=-eq-ok}
use my_go_market.Table.{lookup-key}
use my_go_market.Wallet.Domain.{Wallet, TxType, Transaction, tx_type_eq_iff}
use my_go_market.Wallet.Store.{
  Ledger, Env, wallet_key, wallet_at, lock_wallet, find_wallet_by_id, find_transaction_by_key,
}
use my_go_market.Wallet.Change.{
  same_transaction, post_change, change_locked, lock_and_change, replay_before_lock,
  apply_wallet_change_in_tx,
}
use my_go_market.Wallet.Ledger.{balance_at, IsSound, Posted-IsSound}
use my_go_market.Wallet.Records.{balance_at-found, post_change_lem, Replayed, Fresh}

abbrev pub Changes :
    (k : ℕ) → TxType → ℤ → (key : Text) → Ledger → Wallet → Transaction → Ledger → Type 0
Changes k ty amount key l v t l' =
    Replayed k ty amount key l v t l' ⊎ Fresh k ty amount key l v t l'

same_transaction_lem :
    (t : Transaction) (k : ℕ) (ty : TxType) (amount : ℤ)
    → same_transaction t k ty amount ≡ true
    → (t.wallet_id ≡ k) × (t.tx_type ≡ ty) × (t.amount ≡ amount)
unfolding same_transaction
same_transaction_lem t k ty amount h =
    ground (arith, tx_type_eq_iff t.tx_type ty, eqb_ℤ_iff t.amount amount)

replay_lem :
    (t : Transaction) (k : ℕ) (ty : TxType) (amount : ℤ) (key : Text) (l : Ledger) {v : Wallet}
    {t' : Transaction} {l' : Ledger}
    → is_empty key ≡ false
    → find_transaction_by_key key l ≡ some t
    → replay_before_lock t k ty amount l ≡ ok ((v, t'), l')
    → Replayed k ty amount key l v t' l'
unfolding replay_before_lock find_wallet_by_id
replay_lem t k ty amount key l given known h =
    ground (arith, tx_type_eq_iff t.tx_type ty, eqb_ℤ_iff t.amount amount)

pub lock_wallet_lem :
    (k : ℕ) (l : Ledger) {w : Wallet}
    → lock_wallet k l ≡ ok w
    → (wallet_at k l ≡ some w) × (w.id ≡ k)
unfolding lock_wallet
lock_wallet_lem k l {w} h = ground (arith, lookup-key wallet_key k l.wallets {r = w})

post_change-Fresh :
    (env : Env) (w : Wallet) (k : ℕ) (ty : TxType) (amount : ℤ) (ref : Option ℕ) (desc key : Text)
    (l : Ledger) {v : Wallet} {t : Transaction} {l' : Ledger}
    → IsSound l
    → wallet_at k l ≡ some w
    → w.id ≡ k
    → (is_empty key ≡ true) ⊎ (find_transaction_by_key key l ≡ none)
    → post_change env w ty amount ref desc key l ≡ ok ((v, t), l')
    → Fresh k ty amount key l v t l'
unfolding balance_at
post_change-Fresh env w k ty amount ref desc key l {l' = l'} s found named unused h =
    let (posted, records, same, act, written) =
      post_change_lem env w ty amount ref desc key l (ap (λ j. wallet_at j l) named ∙ found)
        (rw (sym (balance_at-found k w l found)) (s.funded k)) h in
    record {
      posted = posted;
      records = records;
      wallet = same ∙ named;
      written = ap (λ j. wallet_at j l') (sym named) ∙ written;
      unused = unused;
    }

change_locked_lem :
    (env : Env) (w : Wallet) (k : ℕ) (ty : TxType) (amount : ℤ) (ref : Option ℕ) (desc key : Text)
    (l : Ledger) {v : Wallet} {t : Transaction} {l' : Ledger}
    → IsSound l
    → wallet_at k l ≡ some w
    → w.id ≡ k
    → change_locked env w k ty amount ref desc key l ≡ ok ((v, t), l')
    → Changes k ty amount key l v t l'
unfolding change_locked
change_locked_lem env w k ty amount ref desc key l s found named h =
    elim (Bool-cases (is_empty key)) [
      | inl empty ↦ inr (
          post_change-Fresh env w k ty amount ref desc key l s found named (inl empty)
            (ground arith))
      | inr given ↦ elim (Option-cases (find_transaction_by_key key l)) [
        | inl missing ↦ inr (
            post_change-Fresh env w k ty amount ref desc key l s found named (inr missing)
              (ground arith))
        | inr (t', known) ↦ inl (ground (arith, same_transaction_lem t' k ty amount))
      ]
    ]

lock_and_change_lem :
    (env : Env) (k : ℕ) (ty : TxType) (amount : ℤ) (ref : Option ℕ) (desc key : Text) (l : Ledger)
    {v : Wallet} {t : Transaction} {l' : Ledger}
    → IsSound l
    → lock_and_change env k ty amount ref desc key l ≡ ok ((v, t), l')
    → Changes k ty amount key l v t l'
unfolding lock_and_change
lock_and_change_lem env k ty amount ref desc key l s h =
    let (w, locked, rest) = >>=-eq-ok (lock_wallet k l) _ h in
    let (found, named) = lock_wallet_lem k l locked in
    change_locked_lem env w k ty amount ref desc key l s found named rest

-- A change that succeeds inside a transaction replays a recorded one or posts a new one.
pub apply_wallet_change_in_tx_lem :
    (env : Env) (k : ℕ) (ty : TxType) (amount : ℤ) (ref : Option ℕ) (desc key : Text) (l : Ledger)
    {v : Wallet} {t : Transaction} {l' : Ledger}
    → IsSound l
    → apply_wallet_change_in_tx env k ty amount ref desc key l ≡ ok ((v, t), l')
    → Changes k ty amount key l v t l'
unfolding apply_wallet_change_in_tx
apply_wallet_change_in_tx_lem env k ty amount ref desc key l s h =
    elim (Bool-cases (is_empty key)) [
      | inl empty ↦ lock_and_change_lem env k ty amount ref desc key l s (ground arith)
      | inr given ↦ elim (Option-cases (find_transaction_by_key key l)) [
        | inl missing ↦ lock_and_change_lem env k ty amount ref desc key l s (ground arith)
        | inr (t', known) ↦ inl (replay_lem t' k ty amount key l given known (ground arith))
      ]
    ]

pub Changes-IsSound :
    {k : ℕ} {ty : TxType} {amount : ℤ} {key : Text} {l : Ledger} {v : Wallet} {t : Transaction}
    {l' : Ledger}
    → IsSound l
    → Changes k ty amount key l v t l'
    → IsSound l'
Changes-IsSound s (inl r) = rw r.unchanged s
Changes-IsSound s (inr f) = Posted-IsSound s f.posted
