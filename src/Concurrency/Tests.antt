-- ===== src/Concurrency/Tests.antt =====
-- The update of a versioned number, with one rival, and a lock of Redis that two callers want.
use my_go_market.Prelude.{ℕ, ◌+◌, Option, some, List, [], ◌∷◌, ◌≡◌, ◌≢◌, ◌⊎◌, arith}
use my_go_market.Prelude.{◌*◌, Bool, false, none, refl}
use my_go_market.Prelude.Text.{codes}
use my_go_market.Redis.{silent, answering}
use my_go_market.Concurrency.RedisLock.{
  RedisLock, Locks, Call, to_lock, to_unlock, holder, lock, run, spin_lock,
}
use my_go_market.Concurrency.Exclusion.{IsWaited, lock_excludes, spin_lock-ends}
use my_go_market.Concurrency.Versioned.{Versioned, updated, rivals, try_update, try_update_atomic}

abbrev start : Versioned ℕ
start = record { value = record { data_of = 5; version = 1 }; address = 0; made = 1 }

abbrev add_two : ℕ → Option ℕ
add_two n = some (n + 2)

abbrev others : List (ℕ → ℕ)
others = (λ n. n + 9) ∷ []

try_update_atomic_example :
    let (r, v') = try_update 1 add_two others start in
    ((r ≡ updated)
      × (others ≡ [])
      × (start.value.version ≡ 1)
      × (add_two start.value.data_of ≡ some v'.value.data_of)
      × (v'.value.version ≡ 1 + 1))
    ⊎ ((r ≢ updated) × (v'.value ≡ (rivals others start).value))
try_update_atomic_example = try_update_atomic 1 add_two others start (omega arith)

abbrev ours : RedisLock
ours = record { key = codes "lock:order"; value = 1 ∷ []; expiration = 1000 }

abbrev theirs : RedisLock
theirs = record { key = codes "lock:order"; value = 2 ∷ []; expiration = 1000 }

abbrev unlocked : Locks
unlocked = λ k. none

abbrev calls : List Call
calls = to_unlock answering 20 theirs ∷ to_lock answering 30 theirs ∷ to_lock silent 40 theirs ∷ []

differ : theirs.value ≢ ours.value
differ h = ground (arith, h)

lock_excludes_example :
    lock answering 500 theirs (run calls (lock answering 10 ours unlocked).1)
    ≡ (some false, run calls (lock answering 10 ours unlocked).1)
unfolding lock holder
lock_excludes_example =
    lock_excludes 10 ours unlocked calls 500 theirs refl
      ((omega arith, differ), ((omega arith, differ), ((omega arith, differ), tt))) (omega arith)
      refl

abbrev every_100 : ℕ → ℕ
every_100 n = 100 * n

spin_lock-ends_example :
    (taken : Bool) × (m' : Locks) × (spin_lock
        (λ n. silent)
        every_100
        (λ n m. m)
        0
        250
        ours
        unlocked
      ≡ some (taken, m'))
    × IsWaited (λ n. silent) every_100 250 ours taken m'
spin_lock-ends_example =
    spin_lock-ends (λ n. silent) every_100 (λ n m. m) 0 250 ours unlocked (λ n. omega arith)
      (omega arith)
