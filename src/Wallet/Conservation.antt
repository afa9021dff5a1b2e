-- ===== src/Wallet/Conservation.antt =====
-- Transfers (wallet_repository.go, Transfer): what leaves one wallet arrives in the other.
use my_go_market.Prelude.{ℕ, Option, none, some, ◌∷◌, ◌≡◌, ◌≢◌, refl, arith, ap, sym, subst, ◌∙◌}
use my_go_market.Prelude.Int.{ℤ, pos, neg, ◌+ℤ◌, ◌-ℤ◌, ◌≤ℤ◌}
use my_go_market.Prelude.Text.{Text}
use my_go_market.Errors.{ok, >>=-eq-ok, ok-injective}
use my_go_market.Table.{find_by, lookup-update_ne}
use my_go_market.Wallet.Domain.{
  Wallet, transfer_out, transfer_in, Transaction, deduct, deposit, new_transaction,
}
use my_go_market.Wallet.Store.{
  Ledger, Env, wallet_key, wallet_at, TransactionModel, new_transaction_model, update_wallet,
  set_balance, create_transaction, clashes_with,
}
use my_go_market.Wallet.Transfer.{Sides, side_key, out_side, in_side, post_transfer}
use my_go_market.Wallet.Ledger.{IsSound, Posted, create_transaction_lem}
use my_go_market.Wallet.Records.{written-Posted, balance_at-found}

deduct_lem :
    (now : ℕ) (amount : ℤ) (w : Wallet) {v : Wallet}
    → deduct now amount w ≡ ok v
    → (v.id ≡ w.id) × (v.balance ≡ w.balance +ℤ neg amount) × (pos 0 ≤ℤ v.balance)
unfolding deduct ◌+ℤ◌ ◌-ℤ◌
deduct_lem now amount w h = ground arith

deposit_lem :
    (now : ℕ) (amount : ℤ) (w : Wallet) {v : Wallet}
    → deposit now amount w ≡ ok v
    → (v.id ≡ w.id) × (v.balance ≡ w.balance +ℤ amount) × (pos 0 ≤ℤ w.balance → pos 0 ≤ℤ v.balance)
unfolding deposit ◌+ℤ◌
deposit_lem now amount w h = ground arith

-- A row that is new for one state of the wallets is new for any.
create_transaction-fresh :
    (m : TransactionModel) (l : Ledger)
    → find_by (clashes_with m) l.transactions ≡ none
    → create_transaction m l ≡ ok (record l { transactions = m ∷ l.transactions })
unfolding create_transaction
create_transaction-fresh m l fresh = rw (fresh, create_transaction)

-- The two rows of a transfer as two postings, the payer's first.
pub record Moved (from to : ℕ) (amount : ℤ) (key : Text) (l : Ledger) (sides : Sides) (l' : Ledger)
    : Type 0 where
  pub between : Ledger
  pub paid : Posted l (new_transaction_model sides.0) between
  pub received : Posted between (new_transaction_model sides.1) l'
  pub payer : sides.0.wallet_id ≡ from
  pub payee : sides.1.wallet_id ≡ to
  pub taken : sides.0.amount ≡ neg amount
  pub given : sides.1.amount ≡ amount
  pub kinds : (sides.0.tx_type ≡ transfer_out) × (sides.1.tx_type ≡ transfer_in)
  pub keys :
      (sides.0.idempotency_key ≡ side_key key out_side)
      × (sides.1.idempotency_key ≡ side_key key in_side)

module _ (env : Env) (from to : Wallet) (amount : ℤ) (ref : Option ℕ) (desc key : Text)
    (l : Ledger) where
  abbrev out_record : Wallet → Transaction
  out_record payer =
      new_transaction env.fresh env.now payer.id transfer_out (neg amount) payer.balance ref
        (side_key key out_side) desc

  abbrev in_record : Wallet → Transaction
  in_record payee =
      new_transaction env.fresh_second env.now payee.id transfer_in amount payee.balance ref
        (side_key key in_side) desc

  -- What `post_transfer` has done where it succeeds, call by call.
  post_transfer_steps :
      {sides : Sides} {l' : Ledger}
      → post_transfer env from to amount ref desc key l ≡ ok (sides, l')
      → (payer : Wallet) × (payee : Wallet) × (l1 : Ledger) × (deduct env.now amount from
          ≡ ok payer)
        × (deposit env.now amount to ≡ ok payee)
        × (create_transaction
              (new_transaction_model (out_record payer))
              (update_wallet payee (update_wallet payer l))
            ≡ ok l1)
        × (create_transaction (new_transaction_model (in_record payee)) l1 ≡ ok l')
        × (sides ≡ (out_record payer, in_record payee))
  unfolding post_transfer
  post_transfer_steps h =
      let (payer, e1, h1) = >>=-eq-ok (deduct env.now amount from) _ h in
      let (payee, e2, h2) = >>=-eq-ok (deposit env.now amount to) _ h1 in
      let (l1, e3, h3) =
        >>=-eq-ok
          (create_transaction (new_transaction_model (out_record payer))
            (update_wallet payee (update_wallet payer l)))
          _ h2 in
      let (l2, e4, h4) =
        >>=-eq-ok (create_transaction (new_transaction_model (in_record payee)) l1) _ h3 in
      let same = ok-injective h4 in
      (payer, payee, l1, e1, e2, e3, e4 ∙ ap (λ p. ok p.1) same, sym (ap (λ p. p.0) same))

  pub post_transfer-Moved :
      {sides : Sides} {l' : Ledger}
      → IsSound l
      → from.id ≢ to.id
      → wallet_at from.id l ≡ some from
      → wallet_at to.id l ≡ some to
      → post_transfer env from to amount ref desc key l ≡ ok (sides, l')
      → Moved from.id to.id amount key l sides l'
  unfolding new_transaction new_transaction_model update_wallet
  post_transfer-Moved {sides} {l'} s apart here there h =
      let (payer, payee, l1, e1, e2, e3, e4, e5) = post_transfer_steps h in
      let (a1, a2, a3) = deduct_lem env.now amount from e1 in
      let (b1, b2, b3) = deposit_lem env.now amount to e2 in
      let out = new_transaction_model (out_record payer) in
      let (c1, c2) = create_transaction_lem out (update_wallet payee (update_wallet payer l)) e3 in
      rw e5 (record {
        between = record (update_wallet payer l) { transactions = out ∷ l.transactions };
        paid =
            written-Posted from payer out l here a1 a2 a3 a1
              (create_transaction-fresh out (update_wallet payer l) c2);
        received =
            written-Posted to payee (new_transaction_model (in_record payee)) _
              (lookup-update_ne wallet_key to.id payer.id (set_balance payer) l.wallets (λ r. refl)
                  (λ e. apart (sym (e ∙ a1)))
                ∙ there)
              b1 b2
              (b3 (subst (λ a. pos 0 ≤ℤ a) (balance_at-found to.id to l there) (s.funded to.id))) b1
              (ap (create_transaction (new_transaction_model (in_record payee))) (sym c1) ∙ e4);
        payer = a1;
        payee = b1;
        taken = refl;
        given = refl;
        kinds = (refl, refl);
        keys = (refl, refl);
      })
