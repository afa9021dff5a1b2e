-- ===== src/Authz/Coherence.antt =====
-- What the pools of the nodes hold, beside the messages on their way (common/utils/casbin_manager.go,
-- services/iam/app).
use my_go_market.Prelude.{
  ℕ, true, Option, none, some, List, [], ◌∷◌, ◌≡◌, ◌≢◌, refl, ◌==◌, arith, ap, sym, subst, ◌∙◌,
  Bool-cases, inl, inr, ==_iff,
}
use my_go_market.Prelude.Text.{Text}
use my_go_market.Iam.Groups.{GroupStore}
use my_go_market.Authz.Policies.{Policy, load_filtered_policy}
use my_go_market.Authz.Pool.{Pool, empty_pool, remove, invalidate_domain, purge_all, get_enforcer}
use my_go_market.Authz.Nodes.{
  SyncMessage, to_invalidate, to_purge, Node, Cluster, deliver, with_pool, Sending,
  publish_casbin_sync, consume_node, consume, AuthzLib, Check, or_global, loaded_policy,
  casbin_require,
}
use my_go_market.Authz.Handlers.{invalidate_and_broadcast, purge_and_broadcast}
use my_go_market.Authz.Settled.{
  IsGood, settled, settled-consume, settled-sent, settled-IsGood, settled-keeps, remove-IsGood,
  get_enforcer-IsGood, LoadsGood, clears,
}

-- The policy that the tables give for a domain now.
abbrev pub policy_now : Cluster → (domain : ℕ) → Policy
policy_now c d = load_filtered_policy (some d) c.roles c.groups.members

-- On each node an entry has the policy of the tables, or a message that takes it away is on its way.
abbrev pub IsCoherent : Cluster → Type 0
IsCoherent c = (n d : ℕ) → IsGood (policy_now c d) (settled (c.nodes n).inbox (c.nodes n).pool d)

-- Where only good entries change, nodes stay coherent.
with_pool-IsGood :
    (n m d : ℕ) (change : Pool → Pool) (nodes : ℕ → Node) (p : Policy)
    → (IsGood p ((nodes n).pool d) → IsGood p (change (nodes n).pool d))
    → IsGood p (settled (nodes m).inbox (nodes m).pool d)
    → let node = with_pool n change nodes m in IsGood p (settled node.inbox node.pool d)
with_pool-IsGood n m d change nodes p keeps h = elim (Bool-cases (m == n)) [
  | inr other ↦ simp (other) h
  | inl this ↦
      let same : m ≡ n = (==_iff m n).0 this in
      simp (this) (
        settled-keeps d (nodes m).inbox (nodes m).pool (change (nodes m).pool) p
          (subst (λ x. IsGood p ((nodes x).pool d) → IsGood p (change (nodes x).pool d)) (sym same)
            keeps)
          h)
]

consume_node-IsGood :
    (inbox : List SyncMessage) (node : Node) (d : ℕ) (p : Policy)
    → node.inbox ≡ inbox
    → IsGood p (settled node.inbox node.pool d)
    → let node' = consume_node inbox node in IsGood p (settled node'.inbox node'.pool d)
unfolding consume_node
consume_node-IsGood [] node d p here h = h
consume_node-IsGood (msg ∷ rest) node d p here h =
    subst (IsGood p)
      (ap (λ msgs. settled msgs node.pool d) here ∙ sym (settled-consume msg rest node.pool d)) h

pub consume-IsCoherent : (n : ℕ) (c : Cluster) → IsCoherent c → IsCoherent (consume n c)
unfolding consume
consume-IsCoherent n c h m d = elim (Bool-cases (m == n)) [
  | inl this ↦
      simp (this)
        (consume_node-IsGood (c.nodes m).inbox (c.nodes m) d (policy_now c d) refl (h m d))
  | inr other ↦ simp (other) (h m d)
]

-- `CasbinRequire` leaves the tables, and the nodes coherent.
pub casbin_require-IsCoherent :
    (lib : AuthzLib) (check : Check) (n : ℕ) (permission : Text) (user domain : Option ℕ)
    (c : Cluster)
    → IsCoherent c
    → IsCoherent (casbin_require lib check n permission user domain c).1
unfolding casbin_require
casbin_require-IsCoherent lib check n permission none domain c h m d = h m d
casbin_require-IsCoherent lib check n permission (some u) domain c h m d =
    let k = or_global domain in
    with_pool-IsGood n m d
      (λ _.
        (get_enforcer check.evicted lib.ttl check.now k (loaded_policy check k c)
          (c.nodes n).pool).1)
      c.nodes (policy_now c d)
      (λ good.
        get_enforcer-IsGood lib.ttl check.now k check.evicted (loaded_policy check k c)
          (c.nodes n).pool d (policy_now c d) good (loads k d))
      (h m d)
  where
    loads : (k d : ℕ) → LoadsGood lib.ttl check.now k d (policy_now c d) (loaded_policy check k c)
    loads k d = elim (Bool-cases check.database) [
      | inl up ↦ simp (up) (λ e. ap (policy_now c) (sym e))
      | inr down ↦ simp (down) tt
    ]

publish_lem :
    (to : Sending) (msg : SyncMessage) (nodes : ℕ → Node) (m : ℕ)
    → to.casbin_authz ≡ true
    → to.broker ≡ true
    → publish_casbin_sync to msg nodes m ≡ deliver msg (nodes m)
unfolding publish_casbin_sync
publish_lem to msg nodes m on up = simp (on, up) refl

-- After a change of the tables that leaves the policies of other domains, the one that is changed is
-- taken from the node, and the others are told.
pub invalidate-IsCoherent :
    (to : Sending) (n k : ℕ) (c : Cluster) (groups : GroupStore)
    → to.casbin_authz ≡ true
    → to.broker ≡ true
    → IsCoherent c
    → ((d : ℕ) → k ≢ d → policy_now (record c { groups = groups }) d ≡ policy_now c d)
    → IsCoherent (invalidate_and_broadcast to n k (record c { groups = groups }))
unfolding invalidate_and_broadcast publish_casbin_sync invalidate_domain
invalidate-IsCoherent to n k c groups on up h others m d =
    let nodes = with_pool n (remove k) c.nodes in
    let p = policy_now (record c { groups = groups }) d in
    subst (λ (node : Node). IsGood p (settled node.inbox node.pool d))
      (sym (publish_lem to (to_invalidate k) nodes m on up))
      (elim (Bool-cases (d == k)) [
        | inl this ↦
            subst (IsGood p)
              (sym (
                settled-sent d (nodes m).inbox (to_invalidate k) (nodes m).pool
                  (unfold clears in simp (this) refl)))
              tt
        | inr other ↦ settled-IsGood d (nodes m).inbox (to_invalidate k ∷ []) (nodes m).pool p (
            with_pool-IsGood n m d (remove k) c.nodes p (remove-IsGood p d k (c.nodes n).pool) (
              subst (λ (q : Policy). IsGood q (settled (c.nodes m).inbox (c.nodes m).pool d))
                (sym (others d (ground (arith, other)))) (h m d)))
      ])

pub purge-IsCoherent :
    (to : Sending) (n : ℕ) (c : Cluster)
    → to.casbin_authz ≡ true
    → to.broker ≡ true
    → IsCoherent (purge_and_broadcast to n c)
unfolding purge_and_broadcast publish_casbin_sync purge_all
purge-IsCoherent to n c on up m d =
    let nodes = with_pool n (λ _. empty_pool) c.nodes in
    let p = policy_now c d in
    subst (λ (node : Node). IsGood p (settled node.inbox node.pool d))
      (sym (publish_lem to to_purge nodes m on up))
      (subst (IsGood p)
        (sym (settled-sent d (nodes m).inbox to_purge (nodes m).pool (unfold clears in refl))) tt)
