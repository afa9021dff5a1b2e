-- ===== src/Wallet/History.antt =====
-- Any history of wallet requests (wallet_repository.go), and the balances under a transfer.
use my_go_market.Prelude.{
  ℕ, Option, none, List, [], ◌∷◌, ◌≡◌, ◌≢◌, refl, ◌==◌, if◌then◌else◌, arith, ap, sym, subst, ◌∙◌,
  ◌⊎◌, inl, inr,
}
use my_go_market.Prelude.Int.{ℤ, pos, neg, ◌+ℤ◌, ◌-ℤ◌, ◌≤ℤ◌, int_laws}
use my_go_market.Prelude.Text.{Text}
use my_go_market.Errors.{ok}
use my_go_market.Table.{find_by, lookup}
use my_go_market.Wallet.Domain.{Wallet, OwnerType}
use my_go_market.Wallet.Store.{
  Ledger, Env, wallet_key, conflicts_with, new_transaction_model, insert_wallet,
  get_or_create_by_owner,
}
use my_go_market.Wallet.Change.{credit, debit}
use my_go_market.Wallet.Transfer.{Sides, transfer}
use my_go_market.Wallet.Ledger.{IsSound, balance_at, share, sum_of}
use my_go_market.Wallet.Idempotency.{apply_wallet_change-IsSound}
use my_go_market.Wallet.Conservation.{Moved}
use my_go_market.Wallet.Transfers.{TransferEnds, transfer-IsSound}

-- A wallet that conflicts with none has a new id.
new_id :
    (w : Wallet) (ws : List Wallet)
    → find_by (conflicts_with w) ws ≡ none
    → lookup wallet_key w.id ws ≡ none
unfolding find_by lookup
new_id w [] h = refl
new_id w (v ∷ ws) h = ground (arith, new_id w ws)

-- An inserted wallet holds nothing, so no balance changes.
balance_at-insert_wallet :
    (k : ℕ) (w : Wallet) (l : Ledger)
    → w.balance ≡ pos 0
    → balance_at k (insert_wallet w l) ≡ balance_at k l
unfolding balance_at insert_wallet lookup
balance_at-insert_wallet k w l empty = ground (arith, new_id w l.wallets)

insert_wallet-transactions :
    (w : Wallet) (l : Ledger) → (insert_wallet w l).transactions ≡ l.transactions
unfolding insert_wallet
insert_wallet-transactions w l = ground arith

insert_wallet-IsSound :
    (w : Wallet) {l : Ledger} → w.balance ≡ pos 0 → IsSound l → IsSound (insert_wallet w l)
insert_wallet-IsSound w {l} empty s = record {
  reconciled = λ k.
      balance_at-insert_wallet k w l empty
      ∙ s.reconciled k
      ∙ ap (sum_of k) (sym (insert_wallet-transactions w l));
  funded = λ k. rw (balance_at-insert_wallet k w l empty) (s.funded k);
  no_clash = rw (insert_wallet-transactions w l) s.no_clash;
}

get_or_create_by_owner-IsSound :
    (env : Env) (owner_id : ℕ) (owner_type : OwnerType) (code : Text) {l : Ledger}
    → IsSound l
    → IsSound (get_or_create_by_owner env owner_id owner_type code l).1
unfolding get_or_create_by_owner
get_or_create_by_owner-IsSound env owner_id owner_type code s = insert_wallet-IsSound _ refl s

-- The calls that change the tables.
pub data Request : Type 0 where
  open_wallet : Env → (owner_id : ℕ) → OwnerType → (code : Text) → Request
  credit_wallet debit_wallet :
      Env → (wallet_id : ℕ) → (amount : ℤ) → Option ℕ → (desc key : Text) → Request
  transfer_between : Env → (from to : ℕ) → (amount : ℤ) → Option ℕ → (desc key : Text) → Request

unfoldable pub serve : Request → Ledger → Ledger
serve (open_wallet env owner owner_type code) l =
    (get_or_create_by_owner env owner owner_type code l).1
serve (credit_wallet env k amount ref desc key) l = (credit env k amount ref desc key l).1
serve (debit_wallet env k amount ref desc key) l = (debit env k amount ref desc key l).1
serve (transfer_between env from to amount ref desc key) l =
    (transfer env from to amount ref desc key l).1

unfoldable pub serve_all : List Request → Ledger → Ledger
unfolding serve
serve_all [] l = l
serve_all (r ∷ rs) l = serve_all rs (serve r l)

serve-IsSound : (r : Request) {l : Ledger} → IsSound l → IsSound (serve r l)
unfolding serve credit debit
serve-IsSound (open_wallet env owner owner_type code) s =
    get_or_create_by_owner-IsSound env owner owner_type code s
serve-IsSound (credit_wallet env k amount ref desc key) {l} s =
    (apply_wallet_change-IsSound env k _ amount ref desc key l s).0
serve-IsSound (debit_wallet env k amount ref desc key) {l} s =
    (apply_wallet_change-IsSound env k _ (neg amount) ref desc key l s).0
serve-IsSound (transfer_between env from to amount ref desc key) {l} s =
    (transfer-IsSound env from to amount ref desc key l s).0

pub serve_all-IsSound : (rs : List Request) {l : Ledger} → IsSound l → IsSound (serve_all rs l)
unfolding serve_all
serve_all-IsSound [] s = s
serve_all-IsSound (r ∷ rs) {l} s = serve_all-IsSound rs (serve-IsSound r s)

abbrev pub empty_ledger : Ledger
empty_ledger = record { wallets = []; transactions = [] }

pub empty_ledger-IsSound : IsSound empty_ledger
unfolding balance_at lookup sum_of
empty_ledger-IsSound = record { reconciled = λ k. refl; funded = λ k. omega arith; no_clash = tt }

-- From empty tables, whatever requests are served, in any order and with any arguments, every
-- wallet's balance is the sum of the amounts of its recorded transactions and is not negative.
pub history_reconciles :
    (rs : List Request) (k : ℕ)
    → let l = serve_all rs empty_ledger in
      (balance_at k l ≡ sum_of k l.transactions) × (pos 0 ≤ℤ balance_at k l)
history_reconciles rs k =
    let s = serve_all-IsSound rs empty_ledger-IsSound in (s.reconciled k, s.funded k)

pub Moved-balances :
    {from to : ℕ} {amount : ℤ} {key : Text} {l l' : Ledger} {sides : Sides} (k : ℕ)
    → Moved from to amount key l sides l'
    → balance_at k l'
      ≡ balance_at k l
        +ℤ (if from == k then neg amount else pos 0)
        +ℤ (if to == k then amount else pos 0)
unfolding new_transaction_model
Moved-balances {l = l} {sides = sides} k m =
    m.received.moved k
    ∙ ap (λ b. b +ℤ share k (new_transaction_model sides.1)) (m.paid.moved k)
    ∙ λ i.
        balance_at k l
        +ℤ (if m.payer i == k then m.taken i else pos 0)
        +ℤ (if m.payee i == k then m.given i else pos 0)

left_after_paying : (b a : ℤ) → b +ℤ neg a +ℤ pos 0 ≡ b -ℤ a
left_after_paying b a = omega int_laws

covers : (b a : ℤ) → pos 0 ≤ℤ b -ℤ a → a ≤ℤ b
covers b a h = omega int_laws

-- A transfer that succeeds in a sound ledger changes nothing, being a repeated one, or takes the
-- amount from the payer's balance, which covered it, adds it to the payee's, and leaves every other
-- balance alone.
pub transfer_balances :
    (env : Env) (from to : ℕ) (amount : ℤ) (ref : Option ℕ) (desc key : Text) (l : Ledger) (k : ℕ)
    {sides : Sides} {l' : Ledger}
    → IsSound l
    → from ≢ to
    → transfer env from to amount ref desc key l ≡ (ok sides, l')
    → (l' ≡ l)
      ⊎ ((balance_at k l'
            ≡ balance_at k l
              +ℤ (if from == k then neg amount else pos 0)
              +ℤ (if to == k then amount else pos 0))
          × (amount ≤ℤ balance_at from l))
transfer_balances env from to amount ref desc key l k {sides} {l'} s apart h = elim both.1 [
  | inl recorded ↦ inl recorded.2
  | inr m ↦ inr (Moved-balances k m, covered m)
]
  where
    both : IsSound l' × TransferEnds from to amount key l (ok sides) l'
    both =
        subst (λ p. IsSound p.1 × TransferEnds from to amount key l p.0 p.1) h
          (transfer-IsSound env from to amount ref desc key l s)

    paid : Moved from to amount key l sides l' → balance_at from l' ≡ balance_at from l -ℤ amount
    paid m = ground (arith, Moved-balances from m, left_after_paying (balance_at from l) amount)

    covered : Moved from to amount key l sides l' → amount ≤ℤ balance_at from l
    covered m =
        covers (balance_at from l) amount (subst (λ x. pos 0 ≤ℤ x) (paid m) (both.0.funded from))
