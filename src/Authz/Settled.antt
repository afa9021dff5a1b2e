-- ===== src/Authz/Settled.antt =====
-- The pool of a node once it has consumed its messages (common/utils/casbin_manager.go,
-- common/queue/rocketmq/casbin.go).
use my_go_market.Prelude.{
  ℕ, ◌-◌, Bool, true, false, Option, none, some, List, [], ◌∷◌, ◌++◌, ◌≡◌, refl, ◌==◌, ◌||◌, ltb,
  if◌then◌else◌, arith, ap, sym, subst, Bool-cases, inl, inr, ==_iff,
}
use my_go_market.Authz.Policies.{Policy}
use my_go_market.Authz.Pool.{
  CachedEnforcer, Pool, remove, add, if_fresh, get_fresh, or_else, load_enforcer, get_enforcer,
  invalidate_domain, purge_all,
}
use my_go_market.Authz.Nodes.{SyncMessage, to_invalidate, to_purge, handle_message}

-- An entry that has the policy that it is to have.
abbrev pub IsGood : Policy → Option CachedEnforcer → Type 0
IsGood p none = Unit
IsGood p (some e) = e.enforcer ≡ p

-- The message takes the entry of a domain away.
unfoldable pub clears : (domain : ℕ) → List SyncMessage → Bool
clears d [] = false
clears d (to_invalidate k ∷ msgs) = d == k || clears d msgs
clears d (to_purge ∷ msgs) = true

-- The entry of a domain that the messages leave.
unfoldable pub settled : List SyncMessage → Pool → Pool
settled msgs pool d = if clears d msgs then none else pool d

pub settled-consume :
    (msg : SyncMessage) (msgs : List SyncMessage) (pool : Pool) (d : ℕ)
    → settled msgs (handle_message msg pool) d ≡ settled (msg ∷ msgs) pool d
unfolding settled handle_message invalidate_domain purge_all remove clears
settled-consume (to_invalidate k) msgs pool d = ground arith
settled-consume to_purge msgs pool d = ground arith

clears-append :
    (d : ℕ) (msgs more : List SyncMessage)
    → clears d (msgs ++ more) ≡ (clears d msgs || clears d more)
unfolding clears
clears-append d [] more = refl
clears-append d (to_invalidate k ∷ msgs) more = ground (arith, clears-append d msgs more)
clears-append d (to_purge ∷ msgs) more = refl

-- A message that has been sent clears its domain, whatever stood before it.
pub settled-sent :
    (d : ℕ) (msgs : List SyncMessage) (msg : SyncMessage) (pool : Pool)
    → clears d (msg ∷ []) ≡ true
    → settled (msgs ++ (msg ∷ [])) pool d ≡ none
unfolding settled
settled-sent d msgs msg pool h = ground (arith, clears-append d msgs (msg ∷ []), h)

pub settled-absent :
    (msgs : List SyncMessage) (pool : Pool) (d : ℕ) → pool d ≡ none → settled msgs pool d ≡ none
unfolding settled
settled-absent msgs pool d h = ground (arith, h)

-- A message clears no good entry into a bad one.
pub settled-IsGood :
    (d : ℕ) (msgs more : List SyncMessage) (pool : Pool) (p : Policy)
    → IsGood p (settled msgs pool d)
    → IsGood p (settled (msgs ++ more) pool d)
unfolding settled
settled-IsGood d msgs more pool p h = elim (Bool-cases (clears d more)) [
  | inl gone ↦ subst (IsGood p) (sym (to_none gone)) tt
  | inr left ↦ subst (IsGood p) (sym (to_same left)) h
]
  where
    to_none : clears d more ≡ true → (if clears d (msgs ++ more) then none else pool d) ≡ none
    to_none gone = ground (arith, clears-append d msgs more, gone)

    to_same :
        clears d more ≡ false
        → (if clears d (msgs ++ more) then none else pool d)
          ≡ (if clears d msgs then none else pool d)
    to_same left = ground (arith, clears-append d msgs more, left)

-- A pool whose entries are good stays so where entries go.
pub settled-keeps :
    (d : ℕ) (msgs : List SyncMessage) (pool pool' : Pool) (p : Policy)
    → (IsGood p (pool d) → IsGood p (pool' d))
    → IsGood p (settled msgs pool d)
    → IsGood p (settled msgs pool' d)
unfolding settled
settled-keeps d msgs pool pool' p keeps h = elim (Bool-cases (clears d msgs)) [
  | inl gone ↦ simp (gone) tt
  | inr left ↦ simp (left) (keeps (subst (IsGood p) (ap (λ b. if b then none else pool d) left) h))
]

or_else-IsGood :
    (p : Policy) (k : ℕ) (r : Option Policy × Pool) (next : Pool → Option Policy × Pool)
    → IsGood p (r.1 k)
    → ((pool : Pool) → IsGood p (pool k) → IsGood p ((next pool).1 k))
    → IsGood p ((or_else r next).1 k)
unfolding or_else
or_else-IsGood p k (some q, pool) next h later = h
or_else-IsGood p k (none, pool) next h later = later pool h

-- A lookup finds only this policy.
abbrev FindsOnly : Policy → Option Policy → Type 0
FindsOnly p none = Unit
FindsOnly p (some q) = q ≡ p

or_else-current :
    (p : Policy) (k : ℕ) (r : Option Policy × Pool) (next : Pool → Option Policy × Pool)
    → FindsOnly p r.0
    → IsGood p (r.1 k)
    → ((pool : Pool) → IsGood p (pool k) → (next pool).0 ≡ some p)
    → (or_else r next).0 ≡ some p
unfolding or_else
or_else-current p k (some q, pool) next found h later = ap some found
or_else-current p k (none, pool) next found h later = later pool h

pub remove-IsGood :
    (p : Policy) (k d : ℕ) (pool : Pool) → IsGood p (pool k) → IsGood p (remove d pool k)
unfolding remove
remove-IsGood p k d pool h = elim (Bool-cases (k == d)) [
  | inl this ↦ rw (this, IsGood) tt
  | inr other ↦ simp (other) h
]

-- The entries after `GetEnforcer`: those before, less those that are gone, and the one that is loaded.
module _ (ttl now d : ℕ) where
  if_fresh-IsGood :
      (entry : Option CachedEnforcer) (pool : Pool) (k : ℕ) (p : Policy)
      → IsGood p (pool k)
      → IsGood p ((if_fresh ttl now d entry pool).1 k)
  unfolding if_fresh
  if_fresh-IsGood none pool k p h = h
  if_fresh-IsGood (some e) pool k p h = elim (Bool-cases (ltb (now - e.loaded_at) ttl)) [
    | inl young ↦ simp (young) h
    | inr old ↦ simp (old) (remove-IsGood p k d pool h)
  ]

  if_fresh-hit :
      (entry : Option CachedEnforcer) (pool : Pool) (p : Policy)
      → IsGood p entry
      → FindsOnly p (if_fresh ttl now d entry pool).0
  unfolding if_fresh
  if_fresh-hit none pool p h = tt
  if_fresh-hit (some e) pool p h = elim (Bool-cases (ltb (now - e.loaded_at) ttl)) [
    | inl young ↦ simp (young) h
    | inr old ↦ simp (old) tt
  ]

  -- What is loaded is good, where it is of the domain asked for.
  abbrev pub LoadsGood : ℕ → Policy → Option Policy → Type 0
  LoadsGood k p none = Unit
  LoadsGood k p (some q) = (k ≡ d → q ≡ p)

  module _ (evicted : ℕ → Bool) where
    load_enforcer-IsGood :
        (loaded : Option Policy) (pool : Pool) (k : ℕ) (p : Policy)
        → IsGood p (pool k)
        → LoadsGood k p loaded
        → IsGood p ((load_enforcer evicted now d loaded pool).1 k)
    unfolding load_enforcer add
    load_enforcer-IsGood none pool k p h loads = h
    load_enforcer-IsGood (some q) pool k p h loads = elim (Bool-cases (k == d)) [
      | inl this ↦ simp (this) (loads ((==_iff k d).0 this))
      | inr other ↦ elim (Bool-cases (evicted k)) [
        | inl gone ↦ simp (other, gone) tt
        | inr kept ↦ simp (other, kept) h
      ]
    ]

    pub get_enforcer-IsGood :
        (loaded : Option Policy) (pool : Pool) (k : ℕ) (p : Policy)
        → IsGood p (pool k)
        → LoadsGood k p loaded
        → IsGood p ((get_enforcer evicted ttl now d loaded pool).1 k)
    unfolding get_enforcer get_fresh
    get_enforcer-IsGood loaded pool k p h loads =
        or_else-IsGood p k _ _ (if_fresh-IsGood (pool d) pool k p h) (λ pool1 h1.
          or_else-IsGood p k _ _ (if_fresh-IsGood (pool1 d) pool1 k p h1)
            (λ pool2 h2. load_enforcer-IsGood loaded pool2 k p h2 loads))

    -- Where the entry of the domain is good and the database answers, the enforcer has its policy.
    pub get_enforcer-current :
        (pool : Pool) (p : Policy)
        → IsGood p (pool d)
        → (get_enforcer evicted ttl now d (some p) pool).0 ≡ some p
    unfolding get_enforcer get_fresh load_enforcer
    get_enforcer-current pool p h =
        or_else-current p d _ _ (if_fresh-hit (pool d) pool p h)
          (if_fresh-IsGood (pool d) pool d p h)
          (λ pool1 h1.
            or_else-current p d _ _ (if_fresh-hit (pool1 d) pool1 p h1)
              (if_fresh-IsGood (pool1 d) pool1 d p h1) (λ pool2 h2. refl))
