-- ===== src/Errors.antt =====
-- Errors as values: the sentinel errors of services/wallet/domain and services/order/domain, those
-- that the database reports, and the two shapes of a call that may fail.
use my_go_market.Prelude.{Bool, true, false, ◌≡◌, refl, ◌⊎◌, inl, inr, arith}

-- `record_not_found` is gorm.ErrRecordNotFound, `unique_violation` any refused insert; the others
-- are the sentinels by name, the two errors that the entitlement worker makes by fmt.Errorf
-- (`event_locked`, `order_not_paid`), `lock_failed`, an error of the Redis client, and those that the
-- repository of roles and the service of groups make by errors.New (the last two lines).
pub data Error : Type 0 where
  record_not_found unique_violation : Error
  insufficient_balance wallet_inactive invalid_amount idempotency_conflict invalid_transfer : Error
  invalid_order_amount order_already_paid order_not_payable order_not_cancellable : Error
  order_forbidden order_idempotency app_not_found : Error
  event_locked lock_failed order_not_paid : Error
  invalid_permission_id permission_not_found superadmin_must_keep : Error
  group_not_found owner_role_fixed member_not_found owner_cannot_leave : Error

pub data Result {ℓ} (A : Type ℓ) : Type ℓ where
  ok : A → Result A
  err : Error → Result A

infixl 5 ◌>>=◌
abbrev pub ◌>>=◌ {ℓ κ} :
    {X : Type ℓ} {Y : Type κ} → (call : Result X) → (rest : X → Result Y) → Result Y
err e >>= rest = err e
ok x >>= rest = rest x

infixl 5 ◌>>◌
abbrev pub ◌>>◌ {κ} : {Y : Type κ} → (call : Result (Unit {0})) → (rest : Result Y) → Result Y
call >> rest = call >>= (λ _. rest)

-- An early return with an error, if the test holds.
abbrev pub fail_if : Bool → Error → Result (Unit {0})
fail_if true e = err e
fail_if false e = ok tt

-- A database transaction over the state `S`: on an error nothing is kept.
abbrev pub transaction : {S A : Type 0} → (S → Result (A × S)) → S → Result A × S
transaction body s = elim (body s) [ ok (a, s') ↦ (ok a, s') | err e ↦ (err e, s) ]

pub Result-cases {ℓ} :
    {A : Type ℓ} (r : Result A) → ((a : A) × (r ≡ ok a)) ⊎ ((e : Error) × (r ≡ err e))
Result-cases (ok a) = inl (a, refl)
Result-cases (err e) = inr (e, refl)

-- Inversion of a successful bind.
pub >>=-eq-ok {ℓ κ} :
    {X : Type ℓ} {Y : Type κ} (call : Result X) (rest : X → Result Y) {y : Y}
    → (call >>= rest) ≡ ok y
    → (x : X) × (call ≡ ok x) × (rest x ≡ ok y)
>>=-eq-ok (err e) rest ended = cc
>>=-eq-ok (ok x) rest ended = (x, refl, ended)

pub transaction-ok :
    {S A : Type 0} (body : S → Result (A × S)) (s : S) {a : A} {s' : S}
    → body s ≡ ok (a, s')
    → transaction body s ≡ (ok a, s')
transaction-ok body s h = rw (h, transaction)

pub transaction-err :
    {S A : Type 0} (body : S → Result (A × S)) (s : S) {e : Error}
    → body s ≡ err e
    → transaction body s ≡ (err e, s)
transaction-err body s h = rw (h, transaction)

-- A transaction that succeeds has run its body.
pub transaction-eq-ok :
    {S A : Type 0} (body : S → Result (A × S)) (s : S) {a : A} {s' : S}
    → transaction body s ≡ (ok a, s')
    → body s ≡ ok (a, s')
transaction-eq-ok body s h = elim (Result-cases (body s)) [
  | inl (r, ran) ↦ ground arith
  | inr (e, failed) ↦ ground arith
]

pub ok-injective {ℓ} : {A : Type ℓ} {a b : A} → ok a ≡ ok b → a ≡ b
ok-injective h = cc

-- Inversion of an early return that was not taken.
pub passed {ℓ} :
    {B : Type ℓ} (c : Bool) (e : Error) (m : Result B) {b : B}
    → (fail_if c e >> m) ≡ ok b
    → (c ≡ false) × (m ≡ ok b)
passed true e m h = cc
passed false e m h = (refl, h)
