-- ===== src/Wallet/Transfers.antt =====
-- Transfers as the callers see them (wallet_repository.go, Transfer): the invariant, atomicity,
-- the order of the locks and the sum of all balances.
use my_go_market.Prelude.{
  ℕ, false, Option, some, ◌≡◌, ◌≢◌, refl, ◌==◌, ◌||◌, ◌<◌, arith, ap, sym, subst, ◌∙◌, Bool-cases,
  ◌⊎◌, inl, inr,
}
use my_go_market.Prelude.Int.{ℤ, pos, leb_ℤ}
use my_go_market.Prelude.Text.{Text, is_empty}
use my_go_market.Errors.{Result, ok, err, Result-cases, transaction-ok, transaction-err, >>=-eq-ok}
use my_go_market.Wallet.Domain.{Wallet}
use my_go_market.Wallet.Store.{Ledger, Env, wallet_at}
use my_go_market.Wallet.Transfer.{
  Sides, lock_order, lock_both, with_key_read, find_existing_transfer, transfer_locked,
  transfer_in_tx, transfer,
}
use my_go_market.Wallet.Ledger.{IsSound, Posted-IsSound}
use my_go_market.Wallet.Posting.{lock_wallet_lem}
use my_go_market.Wallet.Conservation.{Moved, post_transfer-Moved}

lock_both_lem :
    (from to : ℕ) (l : Ledger) {a b : Wallet}
    → from ≢ to
    → lock_both from to l ≡ ok (a, b)
    → (wallet_at from l ≡ some a) × (wallet_at to l ≡ some b) × (a.id ≡ from) × (b.id ≡ to)
unfolding lock_both lock_order
lock_both_lem from to l {a} {b} apart h =
    ground (arith, lock_wallet_lem from l {w = a}, lock_wallet_lem to l {w = b})

-- The locks are taken on the two wallets in ascending order of their ids, whichever of the two pays:
-- transfers in opposite directions between the same wallets lock them in the same order.
pub lock_order_ascends :
    (from to : ℕ)
    → from ≢ to
    → let (first, second) = lock_order from to in
      (first < second)
      × (lock_order to from ≡ (first, second))
      × (((first ≡ from) × (second ≡ to)) ⊎ ((first ≡ to) × (second ≡ from)))
unfolding lock_order
lock_order_ascends from to apart = ground arith

-- A transfer that was recorded under the key, or a new one.
abbrev pub Transferred : (from to : ℕ) → ℤ → (key : Text) → Ledger → Sides → Ledger → Type 0
Transferred from to amount key l sides l' =
    ((is_empty key ≡ false) × (find_existing_transfer key from to amount l ≡ ok sides) × (l' ≡ l))
    ⊎ Moved from to amount key l sides l'

with_key_read_lem :
    (key : Text) (from to : ℕ) (amount : ℤ) (l : Ledger) (rest : Result (Sides × Ledger))
    {sides : Sides} {l' : Ledger}
    → with_key_read key from to amount l rest ≡ ok (sides, l')
    → ((is_empty key ≡ false) × (find_existing_transfer key from to amount l ≡ ok sides) × (l' ≡ l))
      ⊎ (rest ≡ ok (sides, l'))
with_key_read_lem key from to amount l rest h = ground arith

module _ (env : Env) (from to : ℕ) (amount : ℤ) (ref : Option ℕ) (desc key : Text)
    (l : Ledger) where
  transfer_locked-Transferred :
      {sides : Sides} {l' : Ledger}
      → IsSound l
      → from ≢ to
      → transfer_locked env from to amount ref desc key l ≡ ok (sides, l')
      → Transferred from to amount key l sides l'
  unfolding transfer_locked
  transfer_locked-Transferred {sides} {l'} s apart h =
      let ((a, b), locked, rest) = >>=-eq-ok (lock_both from to l) _ h in
      let (here, there, e1, e2) = lock_both_lem from to l apart locked in
      elim (with_key_read_lem key from to amount l _ rest) [
        | inl recorded ↦ inl recorded
        | inr posted ↦ inr (
            subst (λ j. Moved j to amount key l sides l') e1
              (subst (λ j. Moved a.id j amount key l sides l') e2
                (post_transfer-Moved env a b amount ref desc key l s (λ e. apart (sym e1 ∙ e ∙ e2))
                  (ap (λ j. wallet_at j l) e1 ∙ here) (ap (λ j. wallet_at j l) e2 ∙ there) posted)))
      ]

  transfer_in_tx-Transferred :
      {sides : Sides} {l' : Ledger}
      → IsSound l
      → from ≢ to
      → transfer_in_tx env from to amount ref desc key l ≡ ok (sides, l')
      → Transferred from to amount key l sides l'
  unfolding transfer_in_tx
  transfer_in_tx-Transferred s apart h = elim (with_key_read_lem key from to amount l _ h) [
    | inl recorded ↦ inl recorded
    | inr locked ↦ transfer_locked-Transferred s apart locked
  ]

Transferred-IsSound :
    {from to : ℕ} {amount : ℤ} {key : Text} {l : Ledger} {sides : Sides} {l' : Ledger}
    → IsSound l
    → Transferred from to amount key l sides l'
    → IsSound l'
Transferred-IsSound s (inl recorded) = rw recorded.2 s
Transferred-IsSound s (inr m) = Posted-IsSound (Posted-IsSound s m.paid) m.received

-- How a transfer ended.
abbrev pub TransferEnds : (from to : ℕ) → ℤ → (key : Text) → Ledger → Result Sides → Ledger → Type 0
TransferEnds from to amount key l (err e) l' = l' ≡ l
TransferEnds from to amount key l (ok sides) l' = Transferred from to amount key l sides l'

-- In a sound ledger a transfer keeps the ledger sound; it returns an error and changes nothing, or
-- returns the two rows that its key already has for the same wallets and amount and changes
-- nothing, or adds two rows that take the amount from the payer and give it to the payee.
pub transfer-IsSound :
    (env : Env) (from to : ℕ) (amount : ℤ) (ref : Option ℕ) (desc key : Text) (l : Ledger)
    → IsSound l
    → let (r, l') = transfer env from to amount ref desc key l in
      IsSound l' × TransferEnds from to amount key l r l'
unfolding transfer
transfer-IsSound env from to amount ref desc key l s =
    elim (Bool-cases (from == to || leb_ℤ amount (pos 0))) [
      | inl invalid ↦ rw invalid (s, refl)
      | inr valid ↦ elim (Result-cases (transfer_in_tx env from to amount ref desc key l)) [
        | inl ((sides, l'), done) ↦
            let t =
              transfer_in_tx-Transferred env from to amount ref desc key l s (apart valid) done in
            rw (valid, transaction-ok (transfer_in_tx env from to amount ref desc key) l done)
              (Transferred-IsSound s t, t)
        | inr (e, failed) ↦
            rw (valid, transaction-err (transfer_in_tx env from to amount ref desc key) l failed)
              (s, refl)
      ]
    ]
  where
    apart : (from == to || leb_ℤ amount (pos 0)) ≡ false → from ≢ to
    apart h = ground arith
