-- ===== src/Wallet/Access.antt =====
-- Whose wallets the handlers change (services/wallet/app/http_service.go).
use my_go_market.Prelude.{
  ℕ, Bool, true, false, Option, some, ◌≡◌, refl, ◌==◌, ◌⊎◌, inl, inr, if◌then◌else◌, arith,
  Bool-cases, Option-cases, ==_iff, ap, sym, subst, ◌∙◌, ◌≢◌,
}
use my_go_market.Prelude.Int.{ℤ, pos, neg, ◌+ℤ◌, ◌≤ℤ◌, ◌<ℤ◌, int_laws}
use my_go_market.Prelude.Text.{Text, codes}
use my_go_market.Errors.{Result, ok, err}
use my_go_market.Web.{
  answered, Parsers, current_user_id, parse_id, parse_positive_amount, parse_optional_uuid,
  Reply-cases, answered-bind, answered-injective, IsUser,
}
use my_go_market.Wallet.Domain.{Wallet, Transaction, TxType, user, recharge, consume}
use my_go_market.Wallet.Store.{Ledger, Env, wallet_at, find_wallet_by_id, new_transaction_model}
use my_go_market.Wallet.Change.{credit, debit, apply_wallet_change}
use my_go_market.Wallet.Transfer.{Sides, transfer}
use my_go_market.Wallet.Ledger.{IsSound, balance_at}
use my_go_market.Wallet.Idempotency.{Ends, apply_wallet_change-IsSound}
use my_go_market.Wallet.Transfers.{TransferEnds, transfer-IsSound}
use my_go_market.Wallet.History.{Moved-balances}
use my_go_market.Wallet.Handlers.{
  WalletChangeRequest, WalletTransferRequest, ChangeCall, TransferCall, ensure_owned_wallet,
  check_change, change_balance, check_transfer, transfer_handler, body_of,
}

plus_zero : (b : ℤ) → b +ℤ pos 0 ≡ b
plus_zero b = omega int_laws

self : (b : ℤ) → b ≤ℤ b
self b = omega int_laws

-- The wallet is there and belongs to this user, not to a group.
pub record IsOwned (wallet_id user_id : ℕ) (l : Ledger) : Type 0 where
  pub wallet : Wallet
  pub found : wallet_at wallet_id l ≡ some wallet
  pub by_user : wallet.owner_type ≡ user
  pub owner : wallet.owner_id ≡ user_id

ensure_owned_wallet-IsOwned :
    (wallet_id user_id : ℕ) (l : Ledger) {u : Unit {0}}
    → ensure_owned_wallet wallet_id user_id l ≡ answered u
    → IsOwned wallet_id user_id l
unfolding ensure_owned_wallet find_wallet_by_id
ensure_owned_wallet-IsOwned wallet_id user_id l h = elim (Option-cases (wallet_at wallet_id l)) [
  | inl missing ↦ ground arith
  | inr (w, found) ↦ record {
    wallet = w;
    found = found;
    by_user = ground arith;
    owner = ground arith;
  }
]

parse_positive_amount-positive :
    (lib : Parsers) (value : Text) {amount : ℤ}
    → parse_positive_amount lib value ≡ answered amount
    → pos 0 <ℤ amount
unfolding parse_positive_amount
parse_positive_amount-positive lib value h = ground arith

check_change-IsOwned :
    (lib : Parsers) (user_id wallet_id : Text) (body : Option WalletChangeRequest) (l : Ledger)
    {call : ChangeCall}
    → check_change lib user_id wallet_id body l ≡ answered call
    → (u : ℕ) × IsUser lib user_id u × IsOwned call.wallet_id u l
unfolding check_change
check_change-IsOwned lib user_id wallet_id body l {call} h =
    let (u, by, h1) = answered-bind (current_user_id lib user_id) _ h in
    let (k, named, h2) = answered-bind (parse_id lib wallet_id (codes "INVALID_WALLET_ID")) _ h1 in
    let (_, owned, h3) = answered-bind (ensure_owned_wallet k u l) _ h2 in
    let (req, bound, h4) = answered-bind (body_of body) _ h3 in
    let (amount, positive, h5) = answered-bind (parse_positive_amount lib req.amount) _ h4 in
    let (ref, parsed, h6) =
      answered-bind (parse_optional_uuid lib req.reference_id (codes "INVALID_REFERENCE_ID")) _
        h5 in
    (
      u,
      by,
      subst (λ (j : ℕ). IsOwned j u l)
          (ap (λ (c : ChangeCall). c.wallet_id) (answered-injective h6))
          (ensure_owned_wallet-IsOwned k u l owned),
    )

check_transfer-IsOwned :
    (lib : Parsers) (user_id : Text) (body : Option WalletTransferRequest) (l : Ledger)
    {call : TransferCall}
    → check_transfer lib user_id body l ≡ answered call
    → (u : ℕ) × IsUser lib user_id u × IsOwned call.from_wallet_id u l × (pos 0 <ℤ call.amount)
unfolding check_transfer
check_transfer-IsOwned lib user_id body l {call} h =
    let (u, by, h1) = answered-bind (current_user_id lib user_id) _ h in
    let (req, bound, h2) = answered-bind (body_of body) _ h1 in
    let (from, named, h3) =
      answered-bind (parse_id lib req.from_wallet_id (codes "INVALID_WALLET_ID")) _ h2 in
    let (to, also, h4) =
      answered-bind (parse_id lib req.to_wallet_id (codes "INVALID_WALLET_ID")) _ h3 in
    let (amount, positive, h5) = answered-bind (parse_positive_amount lib req.amount) _ h4 in
    let (ref, parsed, h6) =
      answered-bind (parse_optional_uuid lib req.reference_id (codes "INVALID_REFERENCE_ID")) _
        h5 in
    let (_, owned, h7) = answered-bind (ensure_owned_wallet from u l) _ h6 in
    let made = answered-injective h7 in
    (
      u,
      by,
      subst (λ (j : ℕ). IsOwned j u l) (ap (λ (c : TransferCall). c.from_wallet_id) made)
          (ensure_owned_wallet-IsOwned from u l owned),
      subst (λ (a : ℤ). pos 0 <ℤ a) (ap (λ (c : TransferCall). c.amount) made)
          (parse_positive_amount-positive lib req.amount positive),
    )

-- A change of one wallet leaves the balance of every other.
Ends-elsewhere :
    (k j : ℕ) (ty : TxType) (amount : ℤ) (key : Text) (l : Ledger)
    (r : Result (Wallet × Transaction)) (l' : Ledger)
    → k ≢ j
    → Ends k ty amount key l r l'
    → balance_at j l' ≡ balance_at j l
unfolding new_transaction_model
Ends-elsewhere k j ty amount key l (err e) l' apart same = rw same
Ends-elsewhere k j ty amount key l (ok (v, t)) l' apart (inl r) = rw r.unchanged
Ends-elsewhere k j ty amount key l (ok (v, t)) l' apart (inr f) =
    f.posted.moved j ∙ ground (arith, f.records.of_wallet, f.wallet, plus_zero (balance_at j l))

-- The balance of a wallet after a call of the handler that passed the checks.
change-elsewhere :
    (env : Env) (is_credit : Bool) (call : ChangeCall) (l : Ledger) (j : ℕ)
    → IsSound l
    → call.wallet_id ≢ j
    → balance_at j
        (if is_credit
          then credit env call.wallet_id call.amount call.reference_id call.description
              call.idempotency_key l
          else debit env call.wallet_id call.amount call.reference_id call.description
              call.idempotency_key l).1
      ≡ balance_at j l
unfolding credit debit
change-elsewhere env true call l j s apart =
    let (r, l') =
      apply_wallet_change env call.wallet_id recharge call.amount call.reference_id call.description
        call.idempotency_key l in
    Ends-elsewhere call.wallet_id j recharge call.amount call.idempotency_key l r l' apart
      (apply_wallet_change-IsSound env call.wallet_id recharge call.amount call.reference_id
        call.description call.idempotency_key l s).1
change-elsewhere env false call l j s apart =
    let (r, l') =
      apply_wallet_change env call.wallet_id consume (neg call.amount) call.reference_id
        call.description call.idempotency_key l in
    Ends-elsewhere call.wallet_id j consume (neg call.amount) call.idempotency_key l r l' apart
      (apply_wallet_change-IsSound env call.wallet_id consume (neg call.amount) call.reference_id
        call.description call.idempotency_key l s).1

-- In a sound ledger the credit and debit handlers change the balance of a wallet only where the
-- wallet belongs to the user of the request; every other balance stays, whatever the request holds
-- and however it ends.
pub change_balance_own :
    (lib : Parsers) (env : Env) (is_credit : Bool) (user_id wallet_id : Text)
    (body : Option WalletChangeRequest) (l : Ledger) (j : ℕ)
    → IsSound l
    → let (reply, l') = change_balance lib env is_credit user_id wallet_id body l in
      (balance_at j l' ≡ balance_at j l) ⊎ ((u : ℕ) × IsUser lib user_id u × IsOwned j u l)
unfolding change_balance
change_balance_own lib env is_credit user_id wallet_id body l j s =
    elim (Reply-cases (check_change lib user_id wallet_id body l)) [
      | inr (status, code, refusal) ↦ rw (refusal, change_balance) (inl refl)
      | inl (call, passed) ↦ elim (Bool-cases (call.wallet_id == j)) [
        | inl here ↦
            let (u, by, owned) = check_change-IsOwned lib user_id wallet_id body l passed in
            inr (u, by, subst (λ k. IsOwned k u l) ((==_iff call.wallet_id j).0 here) owned)
        | inr apart ↦
            rw (passed, change_balance)
              (inl (
                change-elsewhere env is_credit call l j s
                  (λ e. ground (arith, apart, ==_iff call.wallet_id j))))
      ]
    ]

gains : (b a : ℤ) → pos 0 <ℤ a → b ≤ℤ b +ℤ pos 0 +ℤ a
gains b a h = omega int_laws

keeps : (b : ℤ) → b ≤ℤ b +ℤ pos 0 +ℤ pos 0
keeps b = omega int_laws

-- A transfer lowers the payer's balance alone.
TransferEnds-gains :
    (from to j : ℕ) (amount : ℤ) (key : Text) (l : Ledger) (r : Result Sides) (l' : Ledger)
    → from ≢ j
    → pos 0 <ℤ amount
    → TransferEnds from to amount key l r l'
    → balance_at j l ≤ℤ balance_at j l'
TransferEnds-gains from to j amount key l (err e) l' apart positive same =
    subst (λ x. balance_at j l ≤ℤ balance_at j x) (sym same) (self (balance_at j l))
TransferEnds-gains from to j amount key l (ok sides) l' apart positive (inl recorded) =
    subst (λ x. balance_at j l ≤ℤ balance_at j x) (sym recorded.2) (self (balance_at j l))
TransferEnds-gains from to j amount key l (ok sides) l' apart positive (inr m) =
    ground
      (arith, Moved-balances j m, gains (balance_at j l) amount positive, keeps (balance_at j l))

-- In a sound ledger the transfer handler lowers the balance of a wallet only where the wallet belongs
-- to the user of the request, whatever the request holds and however it ends.
pub transfer_handler_own :
    (lib : Parsers) (env : Env) (user_id : Text) (body : Option WalletTransferRequest) (l : Ledger)
    (j : ℕ)
    → IsSound l
    → let (reply, l') = transfer_handler lib env user_id body l in
      (balance_at j l ≤ℤ balance_at j l') ⊎ ((u : ℕ) × IsUser lib user_id u × IsOwned j u l)
unfolding transfer_handler
transfer_handler_own lib env user_id body l j s =
    elim (Reply-cases (check_transfer lib user_id body l)) [
      | inr (status, code, refusal) ↦ rw (refusal, transfer_handler) (inl (self (balance_at j l)))
      | inl (call, passed) ↦
          let (u, by, owned, positive) = check_transfer-IsOwned lib user_id body l passed in
          elim (Bool-cases (call.from_wallet_id == j)) [
            | inl here ↦
                inr
                  (u, by, subst (λ k. IsOwned k u l) ((==_iff call.from_wallet_id j).0 here) owned)
            | inr apart ↦
                let (r, l') =
                  transfer env call.from_wallet_id call.to_wallet_id call.amount call.reference_id
                    call.description call.idempotency_key l in
                rw (passed, transfer_handler)
                  (inl (
                    TransferEnds-gains call.from_wallet_id call.to_wallet_id j call.amount
                      call.idempotency_key l r l'
                      (λ e. ground (arith, apart, ==_iff call.from_wallet_id j)) positive
                      (transfer-IsSound env call.from_wallet_id call.to_wallet_id call.amount
                        call.reference_id call.description call.idempotency_key l s).1))
          ]
    ]
