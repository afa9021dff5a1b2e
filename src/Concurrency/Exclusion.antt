-- ===== src/Concurrency/Exclusion.antt =====
-- Who holds a lock of Redis, and how long a caller waits for it (redis_lock.go).
use my_go_market.Prelude.{
  ℕ, zero, suc, ◌+◌, ◌*◌, ◌/◌, ◌≤◌, ◌<◌, Bool, true, false, Option, some, List, [], ◌∷◌, ◌≡◌, ◌≢◌,
  refl, ◌⊎◌, inl, inr, if◌then◌else◌, ltb, ltb→lt, arith, ap, sym, subst, ◌∙◌, All, Bool-cases,
  Option-cases,
}
use my_go_market.Prelude.Text.{text_eq, text_eq_refl, text_eq_iff}
use my_go_market.Redis.{Redis, absent, silent, answering}
use my_go_market.Concurrency.RedisLock.{
  RedisLock, Locks, holder, lock, unlock, spin, spin_lock, Call, to_lock, to_unlock, run, IsOther,
}

-- The lock is held until a time.
abbrev pub IsHeld : RedisLock → ℕ → Locks → Type 0
IsHeld l until m = m l.key ≡ some (record { value = l.value; gone_at = until })

lock-IsHeld :
    (now : ℕ) (l : RedisLock) (m : Locks) {m' : Locks}
    → lock answering now l m ≡ (some true, m')
    → IsHeld l (now + l.expiration) m'
unfolding lock
lock-IsHeld now l m {m'} h = elim (Option-cases (holder now (m l.key))) [
  | inr (v, taken) ↦ absurd (ground (arith, h))
  | inl free ↦
      let made : Option Bool × Locks = (
        some true,
        λ k.
            if text_eq k l.key
            then some (record { value = l.value; gone_at = now + l.expiration })
            else m k,
      ) in
      let e : made ≡ (some true, m') = sym (rw (free, lock) refl) ∙ h in
      subst (λ (q : Option Bool × Locks). IsHeld l (now + l.expiration) q.1) e
        (rw (text_eq_refl l.key) refl)
]

held_by :
    (now until : ℕ) (l : RedisLock) (m : Locks)
    → now < until
    → IsHeld l until m
    → holder now (m l.key) ≡ some l.value
unfolding holder
held_by now until l m early held = ground (arith, held)

-- The lock of another value leaves a held lock as it is.
lock-keeps :
    (redis : Redis) (now until : ℕ) (l l' : RedisLock) (m : Locks)
    → now < until
    → IsHeld l until m
    → IsHeld l until (lock redis now l' m).1
unfolding lock
lock-keeps absent now until l l' m early held = held
lock-keeps silent now until l l' m early held = held
lock-keeps answering now until l l' m early held = elim (Option-cases (holder now (m l'.key))) [
  | inr (v, taken) ↦ rw (taken, lock) held
  | inl free ↦ elim (Bool-cases (text_eq l.key l'.key)) [
    | inr other ↦ rw (free, lock) (rw other held)
    | inl same ↦ absurd (
        ground (
          arith,
          held_by now until l m early held,
          free,
          ap (λ k. holder now (m k)) ((text_eq_iff l.key l'.key).0 same),
        ))
  ]
]

unlock-keeps :
    (redis : Redis) (now until : ℕ) (l l' : RedisLock) (m : Locks)
    → now < until
    → l'.value ≢ l.value
    → IsHeld l until m
    → IsHeld l until (unlock redis now l' m)
unfolding unlock
unlock-keeps absent now until l l' m early ne held = held
unlock-keeps silent now until l l' m early ne held = held
unlock-keeps answering now until l l' m early ne held =
    elim (Option-cases (holder now (m l'.key))) [
      | inl free ↦ rw (free, unlock) held
      | inr (v, taken) ↦ elim (Bool-cases (text_eq v l'.value)) [
        | inr foreign ↦ rw (taken, foreign, unlock) held
        | inl own ↦ elim (Bool-cases (text_eq l.key l'.key)) [
          | inr other ↦ rw (taken, own, unlock) (rw other held)
          | inl same ↦ absurd (
              ne (
                sym ((text_eq_iff v l'.value).0 own)
                ∙ ground (
                  arith,
                  held_by now until l m early held,
                  taken,
                  ap (λ k. holder now (m k)) ((text_eq_iff l.key l'.key).0 same),
                )))
        ]
      ]
    ]

run-keeps :
    (cs : List Call) (until : ℕ) (l : RedisLock) (m : Locks)
    → All (IsOther l until) cs
    → IsHeld l until m
    → IsHeld l until (run cs m)
unfolding run
run-keeps [] until l m others held = held
run-keeps (to_lock redis now l' ∷ cs) until l m ((early, ne), others) held =
    run-keeps cs until l (lock redis now l' m).1 others
      (lock-keeps redis now until l l' m early held)
run-keeps (to_unlock redis now l' ∷ cs) until l m ((early, ne), others) held =
    run-keeps cs until l (unlock redis now l' m) others
      (unlock-keeps redis now until l l' m early ne held)

-- A lock that Redis granted is granted to nobody else until it expires, after any calls to lock and
-- unlock by locks with other values before that time, whatever their keys are and whether or not Redis
-- answers them.
pub lock_excludes :
    (now : ℕ) (l : RedisLock) (m : Locks) {m' : Locks} (cs : List Call) (later : ℕ) (l2 : RedisLock)
    → lock answering now l m ≡ (some true, m')
    → All (IsOther l (now + l.expiration)) cs
    → later < now + l.expiration
    → l2.key ≡ l.key
    → lock answering later l2 (run cs m') ≡ (some false, run cs m')
unfolding lock
lock_excludes now l m {m'} cs later l2 granted others early same =
    let held = run-keeps cs (now + l.expiration) l m' others (lock-IsHeld now l m granted) in
    let taken : holder later (run cs m' l2.key) ≡ some l.value =
      ap (λ k. holder later (run cs m' k)) same
      ∙ held_by later (now + l.expiration) l (run cs m') early held in
    rw (taken, lock) refl

-- The loop ended without the lock, or with one that was granted at a turn before the deadline.
abbrev pub IsWaited :
    (redis : ℕ → Redis) (clock : ℕ → ℕ) → (deadline : ℕ) → RedisLock → Bool → Locks → Type 0
IsWaited redis clock deadline l taken m' =
    (taken ≡ false)
    ⊎ ((n : ℕ) × (before : Locks) × (clock n < deadline)
        × (lock (redis n) (clock n) l before ≡ (some true, m')))

-- With fuel for the turns that are left until the deadline, the loop ends.
spin-ends :
    (redis : ℕ → Redis) (clock : ℕ → ℕ) (others : ℕ → Locks → Locks) (deadline : ℕ) (l : RedisLock)
    (fuel turn : ℕ) (m : Locks)
    → ((n : ℕ) → clock n + 100 ≤ clock (suc n))
    → deadline ≤ clock turn + 100 * fuel
    → (taken : Bool) × (m' : Locks) × (spin redis clock others deadline l (suc fuel) turn m
        ≡ some (taken, m'))
      × IsWaited redis clock deadline l taken m'
unfolding spin
spin-ends redis clock others deadline l zero turn m ticks enough =
    let over : ltb (clock turn) deadline ≡ false = ground (arith, enough) in
    (false, m, rw (over, spin) refl, inl refl)
spin-ends redis clock others deadline l (suc fuel) turn m ticks enough =
    let tried = lock (redis turn) (clock turn) l (others turn m) in
    let left : deadline ≤ clock (suc turn) + 100 * fuel = by_ticks (ticks turn) in
    let (taken, m', ends, waited) =
      spin-ends redis clock others deadline l fuel (suc turn) tried.1 ticks left in
    elim (Bool-cases (ltb (clock turn) deadline)) [
      | inr over ↦ (false, m, rw (over, spin) refl, inl refl)
      | inl waiting ↦ elim (Option-cases tried.0) [
        | inl failed ↦ (taken, m', rw (waiting, failed, spin) ends, waited)
        | inr (true, won) ↦ (
          true,
          tried.1,
          rw (waiting, won, spin) refl,
          inr (
            turn,
            others turn m,
            ltb→lt (clock turn) deadline waiting,
            ap (λ (x : Option Bool). (x, tried.1)) won,
          ),
        )
        | inr (false, lost) ↦ (taken, m', rw (waiting, lost, spin) ends, waited)
      ]
    ]
  where
    by_ticks : clock turn + 100 ≤ clock (suc turn) → deadline ≤ clock (suc turn) + 100 * fuel
    by_ticks tick = omega arith

-- Where a turn takes at least the 100 milliseconds that it sleeps, waiting for a lock ends on the fuel
-- of the timeout's turns, whatever Redis answers and others do: without the lock, or with one that was
-- granted at a turn before the deadline.
pub spin_lock-ends :
    (redis : ℕ → Redis) (clock : ℕ → ℕ) (others : ℕ → Locks → Locks) (start timeout : ℕ)
    (l : RedisLock) (m : Locks)
    → ((n : ℕ) → clock n + 100 ≤ clock (suc n))
    → start ≤ clock 0
    → (taken : Bool) × (m' : Locks) × (spin_lock redis clock others start timeout l m
        ≡ some (taken, m'))
      × IsWaited redis clock (start + timeout) l taken m'
unfolding spin_lock
spin_lock-ends redis clock others start timeout l m ticks begun =
    subst
      (λ (fuel : ℕ).
        (taken : Bool) × (m' : Locks) × (spin redis clock others (start + timeout) l fuel 0 m
          ≡ some (taken, m'))
        × IsWaited redis clock (start + timeout) l taken m')
      (omega arith)
      (spin-ends redis clock others (start + timeout) l (timeout / 100 + 1) 0 m ticks
        (omega (arith, begun)))
