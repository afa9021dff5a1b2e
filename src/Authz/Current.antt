-- ===== src/Authz/Current.antt =====
-- The requests as they would be served without pools (services/iam/router.go,
-- common/middleware/authz.go).
use my_go_market.Prelude.{
  ℕ, true, Option, none, some, List, [], ◌∷◌, ◌≡◌, refl, ap, sym, subst, ◌∙◌,
}
use my_go_market.Prelude.Text.{Text}
use my_go_market.Web.{Reply, refused, answered}
use my_go_market.Iam.Roles.{RoleStore}
use my_go_market.Iam.Groups.{GroupStore}
use my_go_market.Authz.Policies.{Policy}
use my_go_market.Authz.Pool.{get_enforcer}
use my_go_market.Authz.Nodes.{
  SyncMessage, Node, Cluster, fresh_node, with_pool, Sending, AuthzLib, Check, resource_domain,
  or_global, loaded_policy, decide, decide_loaded, casbin_require,
}
use my_go_market.Authz.Handlers.{Answer}
use my_go_market.Authz.Routes.{
  Request, to_create, required, path_id, optional_casbin_require, after_check, serve_asking, serve,
  Event, to_serve, to_consume, step, run,
}
use my_go_market.Authz.Settled.{IsGood, settled, clears, get_enforcer-current}
use my_go_market.Authz.Coherence.{
  policy_now, IsCoherent, consume-IsCoherent, casbin_require-IsCoherent,
}
use my_go_market.Authz.Served.{IsUnseen, handle-IsCoherent}
use my_go_market.Authz.Alike.{AreAlike, after_check-AreAlike}

-- A request that asks for a permission makes no group.
asked-IsUnseen :
    (req : Request) (permission : Text) (c : Cluster)
    → required req ≡ some permission
    → IsUnseen req c
unfolding required
asked-IsUnseen (to_create new_id now name) permission c e = absurd cc
asked-IsUnseen _ permission c e = tt

asks :
    (lib : AuthzLib) (to : Sending) (check : Check) (n u : ℕ) (permission : Text)
    (domain : Option ℕ) (c : Cluster)
    → to.casbin_authz ≡ true
    → optional_casbin_require lib to check n u permission domain c
      ≡ casbin_require lib check n permission (some u) domain c
unfolding optional_casbin_require
asks lib to check n u permission domain c on = simp (on) refl

module _ (lib : AuthzLib) (to : Sending) where
  -- Each new group's id is in no pool when the group is created.
  unfoldable pub AreUnseen : List Event → Cluster → Type 0
  AreUnseen [] c = Unit
  AreUnseen (to_serve check n u req ∷ events) c =
      IsUnseen req c × AreUnseen events (step lib to (to_serve check n u req) c)
  AreUnseen (to_consume n ∷ events) c = AreUnseen events (step lib to (to_consume n) c)

  after_check-IsCoherent :
      (n u : ℕ) (req : Request) (r : Reply (Unit {0}) × Cluster)
      → to.casbin_authz ≡ true
      → to.broker ≡ true
      → IsUnseen req r.1
      → IsCoherent r.1
      → IsCoherent (after_check to n u req r).1
  unfolding after_check
  after_check-IsCoherent n u req (refused status code, c) on up new h = h
  after_check-IsCoherent n u req (answered ok_to_go, c) on up new h =
      handle-IsCoherent to on up n u req c new h

  serve_asking-IsCoherent :
      (asked : Option Text) (check : Check) (n u : ℕ) (req : Request) (c : Cluster)
      → to.casbin_authz ≡ true
      → to.broker ≡ true
      → required req ≡ asked
      → IsUnseen req c
      → IsCoherent c
      → IsCoherent (serve_asking asked lib to check n u req c).1
  unfolding serve_asking
  serve_asking-IsCoherent none check n u req c on up e new h =
      handle-IsCoherent to on up n u req c new h
  serve_asking-IsCoherent (some permission) check n u req c on up e new h =
      let domain = resource_domain (path_id req) none none in
      after_check-IsCoherent n u req _ on up (asked-IsUnseen req permission _ e) (
        subst (λ (r : Reply (Unit {0}) × Cluster). IsCoherent r.1)
          (sym (asks lib to check n u permission domain c on))
          (casbin_require-IsCoherent lib check n permission (some u) domain c h))

  run-IsCoherent :
      (events : List Event) (c : Cluster)
      → to.casbin_authz ≡ true
      → to.broker ≡ true
      → AreUnseen events c
      → IsCoherent c
      → IsCoherent (run lib to events c)
  unfolding run step serve AreUnseen
  run-IsCoherent [] c on up new h = h
  run-IsCoherent (to_serve check n u req ∷ events) c on up (first, new) h =
      run-IsCoherent events _ on up new
        (serve_asking-IsCoherent (required req) check n u req c on up refl first h)
  run-IsCoherent (to_consume n ∷ events) c on up new h =
      run-IsCoherent events _ on up new (consume-IsCoherent n c h)

-- The specification: the policy is read from the tables at each request.

unfoldable pub decide_now :
    AuthzLib → (user_id : ℕ) → Request → (asked : Option Text) → Cluster → Reply (Unit {0})
decide_now lib u req none c = answered tt
decide_now lib u req (some permission) c =
    let d = or_global (resource_domain (path_id req) none none) in
    decide lib u d permission (policy_now c d)

unfoldable pub serve_now :
    AuthzLib → Sending → (node user_id : ℕ) → Request → Cluster → Reply Answer × Cluster
serve_now lib to n u req c = after_check to n u req (decide_now lib u req (required req) c, c)

-- Nodes that have not served yet.
abbrev pub fresh_cluster : GroupStore → RoleStore → Cluster
fresh_cluster groups roles = record { groups = groups; roles = roles; nodes = λ _. fresh_node }

module _ (lib : AuthzLib) (to : Sending) where
  pool_after : Check → (n d : ℕ) → Cluster → ℕ → Node
  pool_after check n d c =
      with_pool n
        (λ _.
          (get_enforcer check.evicted lib.ttl check.now d (loaded_policy check d c)
            (c.nodes n).pool).1)
        c.nodes

  casbin_require-now :
      (check : Check) (n u : ℕ) (permission : Text) (domain : Option ℕ) (c : Cluster)
      → check.database ≡ true
      → (c.nodes n).inbox ≡ []
      → IsCoherent c
      → let d = or_global domain in
        casbin_require lib check n permission (some u) domain c
        ≡ (decide lib u d permission (policy_now c d), record c { nodes = pool_after check n d c })
  unfolding casbin_require pool_after decide_loaded settled clears
  casbin_require-now check n u permission domain c up empty h =
      let d = or_global domain in
      let p = policy_now c d in
      let good : IsGood p ((c.nodes n).pool d) =
        subst (λ (msgs : List SyncMessage). IsGood p (settled msgs (c.nodes n).pool d)) empty
          (h n d) in
      let loaded : loaded_policy check d c ≡ some p = simp (up) refl in
      let enforcer : (get_enforcer check.evicted lib.ttl check.now d (loaded_policy check d c)
            (c.nodes n).pool).0
          ≡ some p =
        ap
          (λ (q : Option Policy).
            (get_enforcer check.evicted lib.ttl check.now d q (c.nodes n).pool).0)
          loaded
        ∙ get_enforcer-current lib.ttl check.now d check.evicted (c.nodes n).pool p good in
      ap
        (λ (q : Option Policy).
          (decide_loaded lib u d permission q, record c { nodes = pool_after check n d c }))
        enforcer

  serve_asking-AreAlike :
      (asked : Option Text) (check : Check) (n u : ℕ) (req : Request) (c : Cluster)
      → to.casbin_authz ≡ true
      → check.database ≡ true
      → (c.nodes n).inbox ≡ []
      → IsCoherent c
      → AreAlike
          (serve_asking asked lib to check n u req c)
          (after_check to n u req (decide_now lib u req asked c, c))
  unfolding serve_asking decide_now after_check
  serve_asking-AreAlike none check n u req c on up empty h = (refl, refl, refl)
  serve_asking-AreAlike (some permission) check n u req c on up empty h =
      let domain = resource_domain (path_id req) none none in
      let d = or_global domain in
      let reply = decide lib u d permission (policy_now c d) in
      subst
        (λ (r : Reply (Unit {0}) × Cluster).
          AreAlike (after_check to n u req r) (after_check to n u req (reply, c)))
        (sym (
          asks lib to check n u permission domain c on
          ∙ casbin_require-now check n u permission domain c up empty h))
        (after_check-AreAlike to n u c (pool_after check n d c) req reply)

  -- Let nodes that have not served yet serve any requests and consume any messages, in any order and at
  -- any times, with authorisation on and a broker that takes every message, and let the ids of new groups
  -- be in no pool when they are made. Then a node that has consumed its messages answers a request as if
  -- it read the permissions from the tables that moment, and leaves the tables that such a server leaves,
  -- however old its pool is and whatever its cache has evicted, if the database answers.
  pub served_as_now :
      (groups : GroupStore) (roles : RoleStore) (events : List Event) (check : Check) (n u : ℕ)
      (req : Request)
      → to.casbin_authz ≡ true
      → to.broker ≡ true
      → AreUnseen lib to events (fresh_cluster groups roles)
      → check.database ≡ true
      → ((run lib to events (fresh_cluster groups roles)).nodes n).inbox ≡ []
      → let c = run lib to events (fresh_cluster groups roles) in
        AreAlike (serve lib to check n u req c) (serve_now lib to n u req c)
  unfolding serve serve_now settled clears
  served_as_now groups roles events check n u req on sent unseen up empty =
      let c = run lib to events (fresh_cluster groups roles) in
      serve_asking-AreAlike (required req) check n u req c on up empty
        (run-IsCoherent lib to events (fresh_cluster groups roles) on sent unseen (λ m d. tt))
