-- ===== src/Authz/Nodes.antt =====
-- The nodes that share a database and tell each other of changes: common/queue/rocketmq/casbin.go and
-- common/middleware/authz.go. Casbin's own `Enforce` is an argument. A node has its pool, and the
-- messages that it has not consumed; a broadcast reaches every node, the sender too.
use my_go_market.Prelude.{
  ℕ, Bool, true, false, Option, none, some, List, [], ◌∷◌, ◌++◌, ◌==◌, if◌then◌else◌,
}
use my_go_market.Prelude.Text.{Text, codes}
use my_go_market.Web.{Reply, refused, ◌>>=◌, or_refuse, refuse_if}
use my_go_market.Iam.Roles.{RoleStore}
use my_go_market.Iam.Groups.{GroupStore}
use my_go_market.Authz.Policies.{Policy, load_filtered_policy}
use my_go_market.Authz.Pool.{Pool, empty_pool, get_enforcer, invalidate_domain, purge_all}

-- `CasbinSyncMessage`, by its action.
pub data SyncMessage : Type 0 where
  to_invalidate : (domain : ℕ) → SyncMessage
  to_purge : SyncMessage

pub record Node : Type 0 where
  pub pool : Pool
  pub inbox : List SyncMessage

pub record Cluster : Type 0 where
  pub groups : GroupStore
  pub roles : RoleStore
  pub nodes : ℕ → Node

abbrev pub fresh_node : Node
fresh_node = record { pool = empty_pool; inbox = [] }

-- What the consumer of InitCasbinSyncConsumer does with a message.
unfoldable pub handle_message : SyncMessage → Pool → Pool
handle_message (to_invalidate d) pool = invalidate_domain d pool
handle_message to_purge pool = purge_all pool

abbrev pub deliver : SyncMessage → Node → Node
deliver msg node = record node { inbox = node.inbox ++ (msg ∷ []) }

abbrev pub with_pool : (node : ℕ) → (Pool → Pool) → (ℕ → Node) → ℕ → Node
with_pool n change nodes k =
    if k == n then record (nodes k) { pool = change (nodes k).pool } else nodes k

-- `Features.CasbinAuthz`, and whether the broker takes the message that a call sends.
pub record Sending : Type 0 where
  pub casbin_authz : Bool
  pub broker : Bool

-- `PublishCasbinSync`, whose errors its callers only log.
unfoldable pub publish_casbin_sync : Sending → SyncMessage → (ℕ → Node) → ℕ → Node
publish_casbin_sync to msg nodes =
    if to.casbin_authz then (if to.broker then (λ k. deliver msg (nodes k)) else nodes) else nodes

unfoldable pub consume_node : List SyncMessage → Node → Node
consume_node [] node = node
consume_node (msg ∷ inbox) node = record { pool = handle_message msg node.pool; inbox = inbox }

-- The consumer of a node takes its next message.
unfoldable pub consume : (node : ℕ) → Cluster → Cluster
consume n c = record c {
  nodes = λ k. if k == n then consume_node (c.nodes k).inbox (c.nodes k) else c.nodes k;
}

-- The middleware.

-- `enforce` is Casbin's, for a policy, a user, a domain and a permission: none is an error.
pub record AuthzLib : Type 0 where
  pub enforce : Policy → (user_id domain : ℕ) → (permission : Text) → Option Bool
  pub ttl : ℕ

-- What a check meets: the time, what its load evicts, and whether the database answers.
pub record Check : Type 0 where
  pub now : ℕ
  pub evicted : ℕ → Bool
  pub database : Bool

-- The id 11111111-1111-1111-1111-111111111111 as a number.
abbrev pub global_domain : ℕ
global_domain = 22685491128062564230891640495451214097

-- `resourceDomain`, from the parameters of the path; none is one that is missing or blank.
unfoldable pub resource_domain : (id app_id group_id : Option ℕ) → Option ℕ
resource_domain (some k) app_id group_id = some k
resource_domain none (some k) group_id = some k
resource_domain none none (some k) = some k
resource_domain none none none = none

abbrev pub or_global : Option ℕ → ℕ
or_global none = global_domain
or_global (some k) = k

abbrev pub loaded_policy : Check → (domain : ℕ) → Cluster → Option Policy
loaded_policy check d c =
    if check.database then some (load_filtered_policy (some d) c.roles c.groups.members) else none

-- The answer of a policy.
unfoldable pub decide :
    AuthzLib → (user_id domain : ℕ) → (permission : Text) → Policy → Reply (Unit {0})
decide lib u d permission p = do
  allowed ← or_refuse (lib.enforce p u d permission) 500 (codes "AUTHZ_ENFORCE_FAILED")
  refuse_if (if allowed then false else true) 403 (codes "FORBIDDEN")

-- What follows the lookup of the enforcer.
unfoldable pub decide_loaded :
    AuthzLib → (user_id domain : ℕ) → (permission : Text) → Option Policy → Reply (Unit {0})
decide_loaded lib u d permission none = refused 500 (codes "AUTHZ_LOAD_FAILED")
decide_loaded lib u d permission (some p) = decide lib u d permission p

-- `CasbinRequire` on a node, from the user of the token and the domain of the path.
unfoldable pub casbin_require :
    AuthzLib
    → Check
    → (node : ℕ) → (permission : Text) → (user_id domain : Option ℕ) → Cluster
    → Reply (Unit {0}) × Cluster
casbin_require lib check n permission none domain c = (refused 401 (codes "UNAUTHORIZED"), c)
casbin_require lib check n permission (some u) domain c =
    let d = or_global domain in
    let (p, pool) =
      get_enforcer check.evicted lib.ttl check.now d (loaded_policy check d c) (c.nodes n).pool in
    (decide_loaded lib u d permission p, record c { nodes = with_pool n (λ _. pool) c.nodes })
