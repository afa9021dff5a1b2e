-- ===== src/Wallet/Ledger.antt =====
-- The invariant of the wallet tables (services/wallet/repository): the balances agree with the
-- recorded transactions.
use my_go_market.Prelude.{
  ℕ, Option, none, some, List, [], ◌∷◌, ◌≡◌, refl, ◌==◌, if◌then◌else◌, arith, Option-cases, inl,
  inr, sym, ap, ◌∙◌,
}
use my_go_market.Prelude.Int.{ℤ, pos, ◌+ℤ◌, ◌≤ℤ◌, int_laws}
use my_go_market.Errors.{ok}
use my_go_market.Table.{find_by, lookup-update_self, lookup-update_ne}
use my_go_market.Wallet.Domain.{Wallet}
use my_go_market.Wallet.Store.{
  Ledger, TransactionModel, wallet_key, wallet_at, clashes_with, set_balance, update_wallet,
  create_transaction,
}

abbrev pub balance_or_zero : Option Wallet → ℤ
balance_or_zero none = pos 0
balance_or_zero (some w) = w.balance

-- The balance of a wallet; an unknown one holds nothing.
unfoldable pub balance_at : ℕ → Ledger → ℤ
balance_at k l = balance_or_zero (wallet_at k l)

-- What a row adds to the wallet `k`.
abbrev pub share : ℕ → TransactionModel → ℤ
share k m = if m.wallet_id == k then m.amount else pos 0

-- The sum of the amounts recorded for the wallet `k`.
unfoldable pub sum_of : ℕ → List TransactionModel → ℤ
sum_of k [] = pos 0
sum_of k (m ∷ ms) = sum_of k ms +ℤ share k m

-- No two rows share an id or a key.
abbrev pub NoClash : List TransactionModel → Type 0
NoClash [] = Unit
NoClash (m ∷ ms) = (find_by (clashes_with m) ms ≡ none) × NoClash ms

pub record IsSound (l : Ledger) : Type 0 where
  pub reconciled : (k : ℕ) → balance_at k l ≡ sum_of k l.transactions
  pub funded : (k : ℕ) → pos 0 ≤ℤ balance_at k l
  pub no_clash : NoClash l.transactions

-- One row was added, and its wallet's balance moved by its amount.
pub record Posted (l : Ledger) (m : TransactionModel) (l' : Ledger) : Type 0 where
  pub recorded : l'.transactions ≡ m ∷ l.transactions
  pub moved : (k : ℕ) → balance_at k l' ≡ balance_at k l +ℤ share k m
  pub covered : pos 0 ≤ℤ balance_at m.wallet_id l'
  pub fresh : find_by (clashes_with m) l.transactions ≡ none

pub Posted-IsSound : {l l' : Ledger} {m : TransactionModel} → IsSound l → Posted l m l' → IsSound l'
unfolding sum_of
Posted-IsSound {l} {l'} {m} s p = record {
  reconciled =
      λ k. p.moved k ∙ ap (λ b. b +ℤ share k m) (s.reconciled k) ∙ sym (ap (sum_of k) p.recorded);
  funded = λ k. ground (arith, p.moved k, p.covered, s.funded k, plus_zero (balance_at k l));
  no_clash = rw p.recorded (p.fresh, s.no_clash);
}
  where
    plus_zero : (a : ℤ) → a +ℤ pos 0 ≡ a
    plus_zero a = omega int_laws

-- The balances after the row of a known wallet is written.
pub balance_at-update_wallet :
    (k : ℕ) (w v : Wallet) (l : Ledger)
    → wallet_at w.id l ≡ some v
    → balance_at k (update_wallet w l) ≡ (if w.id == k then w.balance else balance_at k l)
unfolding balance_at update_wallet
balance_at-update_wallet k w v l e = elim (Option-cases (wallet_at k l)) [
  | inl missing ↦ ground (
    arith,
    lookup-update_self wallet_key k (set_balance w) l.wallets (λ r. refl),
    lookup-update_ne wallet_key k w.id (set_balance w) l.wallets (λ r. refl),
  )
  | inr (u, found) ↦ ground (
    arith,
    lookup-update_self wallet_key k (set_balance w) l.wallets (λ r. refl),
    lookup-update_ne wallet_key k w.id (set_balance w) l.wallets (λ r. refl),
  )
]

pub create_transaction_lem :
    (m : TransactionModel) (l : Ledger) {l' : Ledger}
    → create_transaction m l ≡ ok l'
    → (l' ≡ record l { transactions = m ∷ l.transactions })
      × (find_by (clashes_with m) l.transactions ≡ none)
unfolding create_transaction
create_transaction_lem m l h = elim (Option-cases (find_by (clashes_with m) l.transactions)) [
  | inl fresh ↦ ground arith
  | inr (row, clash) ↦ ground arith
]
