-- ===== src/Wallet/Idempotency.antt =====
-- Changes of one wallet as the callers see them (wallet_repository.go, Credit and Debit): the
-- invariant, atomicity, and what a repeated idempotency key does.
use mathlib.Core.Option
use my_go_market.Prelude.{
  ℕ, true, false, Option, none, some, List, ◌∷◌, ◌≡◌, ◌≢◌, refl, arith, ap, sym, subst, ◌∙◌,
  Bool-cases, ◌⊎◌, inl, inr,
}
use my_go_market.Prelude.Int.{ℤ, pos, neg, ◌-ℤ◌, ◌<ℤ◌, int_laws, eqb_ℤ, eqb_ℤ_iff}
use my_go_market.Prelude.Text.{Text, is_empty, text_eq_refl}
use my_go_market.Errors.{
  Error, Result, ok, err, insufficient_balance, idempotency_conflict, Result-cases, transaction-ok,
  transaction-err,
}
use my_go_market.Table.{find_by}
use my_go_market.Wallet.Domain.{Wallet, TxType, consume, Transaction, tx_type_eq_iff, active}
use my_go_market.Wallet.Store.{
  Ledger, Env, wallet_at, stored_key, has_key, key_or_empty, TransactionModel,
  new_transaction_model, to_domain, find_row_by_key, find_transaction_by_key, find_wallet_by_id,
  lock_wallet,
}
use my_go_market.Wallet.Change.{
  move_balance, apply_wallet_change_in_tx, apply_wallet_change, lock_and_change, change_locked,
  post_change, replay_before_lock, debit,
}
use my_go_market.Wallet.Ledger.{IsSound}
use my_go_market.Wallet.Records.{Fresh}
use my_go_market.Wallet.Posting.{Changes, Changes-IsSound, apply_wallet_change_in_tx_lem}

-- How a change ended: with an error and the tables as they were, or with a replay or a posting.
abbrev pub Ends :
    (k : ℕ) → TxType → ℤ → (key : Text) → Ledger → Result (Wallet × Transaction) → Ledger → Type 0
Ends k ty amount key l (err e) l' = l' ≡ l
Ends k ty amount key l (ok (v, t)) l' = Changes k ty amount key l v t l'

-- In a sound ledger a change of one wallet by any amount and key keeps the ledger sound; it returns
-- an error and changes nothing, or returns the row that the key already has for the same change and
-- changes nothing, or adds one row whose amount is what the wallet's balance moved by.
pub apply_wallet_change-IsSound :
    (env : Env) (k : ℕ) (ty : TxType) (amount : ℤ) (ref : Option ℕ) (desc key : Text) (l : Ledger)
    → IsSound l
    → let (r, l') = apply_wallet_change env k ty amount ref desc key l in
      IsSound l' × Ends k ty amount key l r l'
unfolding apply_wallet_change
apply_wallet_change-IsSound env k ty amount ref desc key l s =
    elim (Bool-cases (eqb_ℤ amount (pos 0))) [
      | inl zero_amount ↦ rw zero_amount (s, refl)
      | inr moves ↦ elim (Result-cases (apply_wallet_change_in_tx env k ty amount ref desc key l)) [
        | inl (((v, t), l'), done) ↦
            let c = apply_wallet_change_in_tx_lem env k ty amount ref desc key l s done in
            rw
              (
                moves,
                transaction-ok (apply_wallet_change_in_tx env k ty amount ref desc key) l done,
              )
              (Changes-IsSound s c, c)
        | inr (e, failed) ↦
            rw
              (
                moves,
                transaction-err (apply_wallet_change_in_tx env k ty amount ref desc key) l failed,
              )
              (s, refl)
      ]
    ]

-- A key that the service trimmed and that is not empty, as the handlers pass it.
abbrev pub IsTrimmedKey : Text → Type 0
IsTrimmedKey key = (is_empty key ≡ false) × (stored_key key ≡ some key)

-- A row that is read back is the transaction that was stored.
pub to_domain-new_transaction_model :
    (t : Transaction)
    → stored_key t.idempotency_key ≡ some t.idempotency_key
    → to_domain (new_transaction_model t) ≡ t
unfolding new_transaction_model to_domain
to_domain-new_transaction_model t kept = λ i. record t { idempotency_key = key_or_empty (kept i) }

has_key_self :
    (t : Transaction)
    → stored_key t.idempotency_key ≡ some t.idempotency_key
    → has_key t.idempotency_key (new_transaction_model t) ≡ true
unfolding new_transaction_model
has_key_self t kept = rw kept (text_eq_refl t.idempotency_key)

-- The newest row is found by its key.
known_newest :
    (t : Transaction) (rows : List TransactionModel)
    → stored_key t.idempotency_key ≡ some t.idempotency_key
    → Option.map to_domain (find_row_by_key t.idempotency_key (new_transaction_model t ∷ rows))
      ≡ some t
unfolding find_row_by_key find_by
known_newest t rows kept =
    rw (has_key_self t kept) (ap some (to_domain-new_transaction_model t kept))

known_after_posting :
    {k : ℕ} {ty : TxType} {amount : ℤ} (key : Text) {l : Ledger} {v : Wallet} {t : Transaction}
    {l' : Ledger}
    → IsTrimmedKey key
    → Fresh k ty amount key l v t l'
    → find_transaction_by_key key l' ≡ some t
unfolding find_transaction_by_key
known_after_posting key {l} {v} {t} {l'} trimmed f =
    let same = f.records.of_key in
    ap (λ rows. Option.map to_domain (find_row_by_key key rows)) f.posted.recorded
    ∙ subst
        (λ q.
          Option.map to_domain (find_row_by_key q (new_transaction_model t ∷ l.transactions))
          ≡ some t)
        same
        (known_newest t l.transactions (subst (λ q. stored_key q ≡ some q) (sym same) trimmed.1))

-- Either way the key is known afterwards, for this very change.
known_after :
    {k : ℕ} {ty : TxType} {amount : ℤ} (key : Text) {l : Ledger} {v : Wallet} {t : Transaction}
    {l' : Ledger}
    → IsTrimmedKey key
    → Changes k ty amount key l v t l'
    → (find_transaction_by_key key l' ≡ some t)
      × (t.wallet_id ≡ k)
      × (t.tx_type ≡ ty)
      × (t.amount ≡ amount)
known_after key trimmed (inl r) =
    (rw r.unchanged r.known, r.same_wallet, r.same_type, r.same_amount)
known_after key trimmed (inr f) = (
  known_after_posting key trimmed f,
  f.records.of_wallet ∙ f.wallet,
  f.records.of_type,
  f.records.of_amount,
)

-- With a known key the outcome rests on the recorded row alone.
module _ (env : Env) (k : ℕ) (ty : TxType) (amount : ℤ) (ref : Option ℕ) (desc key : Text)
    (l : Ledger) (t : Transaction) (given : is_empty key ≡ false)
    (known : find_transaction_by_key key l ≡ some t) where
  in_tx_known :
      apply_wallet_change_in_tx env k ty amount ref desc key l ≡ replay_before_lock t k ty amount l
  unfolding apply_wallet_change_in_tx
  in_tx_known = ground arith

  pub in_tx_same :
      (w : Wallet)
      → wallet_at k l ≡ some w
      → t.wallet_id ≡ k
      → t.tx_type ≡ ty
      → t.amount ≡ amount
      → apply_wallet_change_in_tx env k ty amount ref desc key l ≡ ok ((w, t), l)
  unfolding replay_before_lock find_wallet_by_id
  in_tx_same w found e1 e2 e3 =
      in_tx_known ∙ ground (arith, tx_type_eq_iff t.tx_type ty, eqb_ℤ_iff t.amount amount)

  pub in_tx_other :
      (t.wallet_id ≢ k) ⊎ (t.tx_type ≢ ty) ⊎ (t.amount ≢ amount)
      → apply_wallet_change_in_tx env k ty amount ref desc key l ≡ err idempotency_conflict
  unfolding replay_before_lock
  in_tx_other other =
      in_tx_known ∙ ground (arith, tx_type_eq_iff t.tx_type ty, eqb_ℤ_iff t.amount amount)

-- The wallet that a change returned is the one that its tables hold.
written_after :
    {k : ℕ} {ty : TxType} {amount : ℤ} {key : Text} {l : Ledger} {v : Wallet} {t : Transaction}
    {l' : Ledger}
    → Changes k ty amount key l v t l'
    → wallet_at k l' ≡ some v
written_after (inl r) = rw r.unchanged r.wallet
written_after (inr f) = f.written

-- What the key is known for after a change that succeeded.
ended :
    (env : Env) (k : ℕ) (ty : TxType) (amount : ℤ) (ref : Option ℕ) (desc key : Text) (l : Ledger)
    {v : Wallet} {t : Transaction} {l' : Ledger}
    → IsSound l
    → apply_wallet_change env k ty amount ref desc key l ≡ (ok (v, t), l')
    → Changes k ty amount key l v t l'
ended env k ty amount ref desc key l s h =
    subst (λ p. Ends k ty amount key l p.0 p.1) h
      (apply_wallet_change-IsSound env k ty amount ref desc key l s).1

-- A change that succeeded under a trimmed, non-empty key and is sent again with that key, at any
-- later time and with any ids, reference and description, returns the same wallet and transaction
-- and changes nothing.
pub apply_wallet_change_again :
    (env env' : Env) (k : ℕ) (ty : TxType) (amount : ℤ) (ref ref' : Option ℕ)
    (desc desc' key : Text) (l : Ledger) {v : Wallet} {t : Transaction} {l' : Ledger}
    → IsSound l
    → IsTrimmedKey key
    → apply_wallet_change env k ty amount ref desc key l ≡ (ok (v, t), l')
    → apply_wallet_change env' k ty amount ref' desc' key l' ≡ (ok (v, t), l')
unfolding apply_wallet_change
apply_wallet_change_again env env' k ty amount ref ref' desc desc' key l {v} {t} {l'} s trimmed h =
    elim (Bool-cases (eqb_ℤ amount (pos 0))) [
      | inl zero_amount ↦ ground arith
      | inr moves ↦
          let c = ended env k ty amount ref desc key l s h in
          let (known, e1, e2, e3) = known_after key trimmed c in
          rw moves (
            transaction-ok (apply_wallet_change_in_tx env' k ty amount ref' desc' key) l' (
              in_tx_same env' k ty amount ref' desc' key l' t trimmed.0 known v (written_after c) e1
                e2 e3))
    ]

-- Once a change has succeeded under a trimmed, non-empty key, that key for another wallet, another
-- type or another amount (not zero) is refused as a conflict and changes nothing.
pub apply_wallet_change_conflict :
    (env env' : Env) (k k' : ℕ) (ty ty' : TxType) (amount amount' : ℤ) (ref ref' : Option ℕ)
    (desc desc' key : Text) (l : Ledger) {v : Wallet} {t : Transaction} {l' : Ledger}
    → IsSound l
    → IsTrimmedKey key
    → apply_wallet_change env k ty amount ref desc key l ≡ (ok (v, t), l')
    → amount' ≢ pos 0
    → (k ≢ k') ⊎ (ty ≢ ty') ⊎ (amount ≢ amount')
    → apply_wallet_change env' k' ty' amount' ref' desc' key l' ≡ (err idempotency_conflict, l')
unfolding apply_wallet_change
apply_wallet_change_conflict env env' k k' ty ty' amount amount' ref ref' desc desc' key l {t = t}
      {l' = l'} s trimmed h moves other =
    let (known, e1, e2, e3) = known_after key trimmed (ended env k ty amount ref desc key l s h) in
    rw (not_zero amount' moves) (
      transaction-err (apply_wallet_change_in_tx env' k' ty' amount' ref' desc' key) l' (
        in_tx_other env' k' ty' amount' ref' desc' key l' t trimmed.0 known
          (differs other e1 e2 e3)))
  where
    not_zero : (a : ℤ) → a ≢ pos 0 → eqb_ℤ a (pos 0) ≡ false
    not_zero a ne = ground (arith, eqb_ℤ_iff a (pos 0))

    differs :
        (k ≢ k') ⊎ (ty ≢ ty') ⊎ (amount ≢ amount')
        → t.wallet_id ≡ k
        → t.tx_type ≡ ty
        → t.amount ≡ amount
        → (t.wallet_id ≢ k') ⊎ (t.tx_type ≢ ty') ⊎ (t.amount ≢ amount')
    differs (inl a) e1 e2 e3 = inl (λ e. a (sym e1 ∙ e))
    differs (inr (inl b)) e1 e2 e3 = inr (inl (λ e. b (sym e2 ∙ e)))
    differs (inr (inr c)) e1 e2 e3 = inr (inr (λ e. c (sym e3 ∙ e)))

overdrawn :
    (now : ℕ) (amount : ℤ) (w : Wallet)
    → w.status ≡ active
    → pos 0 <ℤ amount
    → w.balance <ℤ amount
    → move_balance now (neg amount) w ≡ err insufficient_balance
unfolding move_balance ◌-ℤ◌
overdrawn now amount w act positive short = ground arith

-- With no recorded key, an error of the wallet is the error of the change.
pub in_tx_refused :
    (env : Env) (k : ℕ) (ty : TxType) (amount : ℤ) (ref : Option ℕ) (desc key : Text) (l : Ledger)
    {w : Wallet} {e : Error}
    → wallet_at k l ≡ some w
    → find_transaction_by_key key l ≡ none
    → move_balance env.now amount w ≡ err e
    → apply_wallet_change_in_tx env k ty amount ref desc key l ≡ err e
unfolding apply_wallet_change_in_tx lock_and_change lock_wallet change_locked post_change
in_tx_refused env k ty amount ref desc key l found unused refused = ground arith

-- A debit of a positive amount that the wallet's balance does not cover is refused with
-- ErrInsufficientBalance and changes nothing, where the wallet is active and the key, if one is
-- given, is not recorded.
pub debit_overdraft :
    (env : Env) (k : ℕ) (amount : ℤ) (ref : Option ℕ) (desc key : Text) (l : Ledger) {w : Wallet}
    → wallet_at k l ≡ some w
    → w.status ≡ active
    → find_transaction_by_key key l ≡ none
    → pos 0 <ℤ amount
    → w.balance <ℤ amount
    → debit env k amount ref desc key l ≡ (err insufficient_balance, l)
unfolding debit apply_wallet_change
debit_overdraft env k amount ref desc key l found act unused positive short =
    rw (not_zero amount positive) (
      transaction-err (apply_wallet_change_in_tx env k consume (neg amount) ref desc key) l (
        in_tx_refused env k consume (neg amount) ref desc key l found unused
          (overdrawn env.now amount _ act positive short)))
  where
    not_zero : (a : ℤ) → pos 0 <ℤ a → eqb_ℤ (neg a) (pos 0) ≡ false
    not_zero a h = grind int_laws
