-- ===== src/Authz/Pool.antt =====
-- common/utils/casbin_manager.go: the enforcers that a node keeps by domain, each with its policy. Which
-- entries the LRU cache gives up when one is added is an argument; so is whether the database answers.
use my_go_market.Prelude.{ℕ, zero, suc, ◌-◌, Bool, Option, none, some, ◌==◌, ltb, if◌then◌else◌}
use my_go_market.Prelude.Int.{ℤ, pos, negsuc}
use my_go_market.Authz.Policies.{Policy}

-- `cachedEnforcer`
pub record CachedEnforcer : Type 0 where
  pub enforcer : Policy
  pub loaded_at : ℕ

abbrev pub Pool : Type 0
Pool = ℕ → Option CachedEnforcer

abbrev pub ten_minutes : ℕ
ten_minutes = 600_000_000_000

-- `InitCasbinPoolWithTTL`: the lifetime of entries, in nanoseconds, and the empty pool.
unfoldable pub pool_ttl : ℤ → ℕ
pool_ttl (negsuc n) = ten_minutes
pool_ttl (pos zero) = ten_minutes
pool_ttl (pos (suc n)) = suc n

abbrev pub empty_pool : Pool
empty_pool d = none

unfoldable pub remove : (domain : ℕ) → Pool → Pool
remove d pool k = if k == d then none else pool k

-- `cache.Add`, with what it evicts.
unfoldable pub add : (evicted : ℕ → Bool) → (domain : ℕ) → CachedEnforcer → Pool → Pool
add evicted d e pool k = if k == d then some e else if evicted k then none else pool k

-- A lookup: an entry that is too old is removed.
unfoldable pub if_fresh : (ttl now domain : ℕ) → Option CachedEnforcer → Pool → Option Policy × Pool
if_fresh ttl now d none pool = (none, pool)
if_fresh ttl now d (some e) pool =
    if ltb (now - e.loaded_at) ttl then (some e.enforcer, pool) else (none, remove d pool)

unfoldable pub get_fresh : (ttl now domain : ℕ) → Pool → Option Policy × Pool
get_fresh ttl now d pool = if_fresh ttl now d (pool d) pool

unfoldable pub or_else : Option Policy × Pool → (Pool → Option Policy × Pool) → Option Policy × Pool
or_else (some p, pool) next = (some p, pool)
or_else (none, pool) next = next pool

-- What a miss does, with the policy that the database gives, if it gives one.
unfoldable pub load_enforcer :
    (evicted : ℕ → Bool) → (now domain : ℕ) → Option Policy → Pool → Option Policy × Pool
load_enforcer evicted now d none pool = (none, pool)
load_enforcer evicted now d (some p) pool =
    (some p, add evicted d (record { enforcer = p; loaded_at = now }) pool)

-- `GetEnforcer`, as one step; the second lookup is that of the call that the others wait for.
unfoldable pub get_enforcer :
    (evicted : ℕ → Bool)
    → (ttl now domain : ℕ) → (loaded : Option Policy) → Pool
    → Option Policy × Pool
get_enforcer evicted ttl now d loaded pool =
    or_else (get_fresh ttl now d pool)
      (λ pool1. or_else (get_fresh ttl now d pool1) (load_enforcer evicted now d loaded))

-- `InvalidateDomain`
unfoldable pub invalidate_domain : (domain : ℕ) → Pool → Pool
invalidate_domain d pool = remove d pool

-- `PurgeAll`
unfoldable pub purge_all : Pool → Pool
purge_all pool = empty_pool
