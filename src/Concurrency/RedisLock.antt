-- ===== src/Concurrency/RedisLock.antt =====
-- common/utils/lock/redis_lock.go: the lock in Redis. Times are milliseconds.
use my_go_market.Prelude.{
  ◌++◌, ℕ, zero, suc, ◌+◌, ◌/◌, ◌<◌, Bool, true, false, Option, none, some, List, [], ◌∷◌, ◌≢◌,
  if◌then◌else◌, ltb,
}
use my_go_market.Prelude.Text.{Text, codes, text_eq}
use my_go_market.Redis.{Redis, absent, silent, answering}

pub record RedisLock : Type 0 where
  pub key : Text
  pub value : Text
  pub expiration : ℕ

-- `NewRedisLock`, with the value that it draws.
unfoldable pub new_redis_lock : (value key : Text) → (expiration : ℕ) → RedisLock
new_redis_lock value key expiration = record {
  key = codes "lock:" ++ key;
  value = value;
  expiration = expiration;
}

-- A value of Redis, and the time from which it is gone.
pub record Held : Type 0 where
  pub value : Text
  pub gone_at : ℕ

abbrev pub Locks : Type 0
Locks = Text → Option Held

abbrev put : Text → Option Held → Locks → Locks
put key v m = λ k. if text_eq k key then v else m k

-- The value of a key at a time.
unfoldable pub holder : (now : ℕ) → Option Held → Option Text
holder now none = none
holder now (some h) = if ltb now h.gone_at then some h.value else none

-- `Lock`: none is an error.
unfoldable pub lock : Redis → (now : ℕ) → RedisLock → Locks → Option Bool × Locks
lock absent now l m = (some true, m)
lock silent now l m = (none, m)
lock answering now l m = elim (holder now (m l.key)) [
  | some other ↦ (some false, m)
  | none ↦
      (some true, put l.key (some (record { value = l.value; gone_at = now + l.expiration })) m)
]

-- The script of `Unlock`: the key goes only if it holds the lock's own value.
unfoldable pub unlock : Redis → (now : ℕ) → RedisLock → Locks → Locks
unlock absent now l m = m
unlock silent now l m = m
unlock answering now l m = elim (holder now (m l.key)) [
  | none ↦ m
  | some v ↦ if text_eq v l.value then put l.key none m else m
]

-- `SpinLock` on fuel: `clock` is the time at each turn, `others` what other holders do before it. The
-- result says whether the lock was taken; none is out of fuel.
unfoldable pub spin :
    (redis : ℕ → Redis) (clock : ℕ → ℕ) (others : ℕ → Locks → Locks)
    → (deadline : ℕ) → RedisLock
    → (fuel turn : ℕ) → Locks
    → Option (Bool × Locks)
spin redis clock others deadline l zero turn m = none
spin redis clock others deadline l (suc fuel) turn m =
    let (taken, m') = lock (redis turn) (clock turn) l (others turn m) in
    let rest = spin redis clock others deadline l fuel (suc turn) m' in
    if ltb (clock turn) deadline
    then elim taken [ none ↦ rest | some b ↦ if b then some (true, m') else rest ]
    else some (false, m)

-- As many turns of 100 milliseconds as fit the timeout, and two more.
unfoldable pub spin_lock :
    (redis : ℕ → Redis) (clock : ℕ → ℕ) (others : ℕ → Locks → Locks)
    → (start timeout : ℕ) → RedisLock
    → Locks
    → Option (Bool × Locks)
spin_lock redis clock others start timeout l m =
    spin redis clock others (start + timeout) l (timeout / 100 + 2) 0 m

-- A call of a lock, by anyone.
pub data Call : Type 0 where
  to_lock to_unlock : Redis → (now : ℕ) → RedisLock → Call

unfoldable pub run : List Call → Locks → Locks
run [] m = m
run (to_lock redis now l ∷ cs) m = run cs (lock redis now l m).1
run (to_unlock redis now l ∷ cs) m = run cs (unlock redis now l m)

-- A call before a time, by a lock with another value.
abbrev pub IsOther : RedisLock → ℕ → Call → Type 0
IsOther l until (to_lock redis now l') = (now < until) × (l'.value ≢ l.value)
IsOther l until (to_unlock redis now l') = (now < until) × (l'.value ≢ l.value)
