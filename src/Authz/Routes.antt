-- ===== src/Authz/Routes.antt =====
-- services/iam/router.go: the routes of groups, roles and permissions behind JWTAuth, each with the
-- permission that OptionalCasbinRequire (common/middleware/features.go) asks for and its handler; and
-- the requests and messages that the nodes take, one after another.
use my_go_market.Prelude.{ℕ, Option, none, some, List, [], ◌∷◌, if◌then◌else◌}
use my_go_market.Prelude.Int.{ℤ}
use my_go_market.Prelude.Text.{Text, codes}
use my_go_market.Web.{Reply, refused, answered}
use my_go_market.Authz.Nodes.{
  Cluster, Sending, AuthzLib, Check, resource_domain, casbin_require, consume,
}
use my_go_market.Authz.Handlers.{
  Answer, role_list, permission_list, list_roles, list_permissions, register_group_handler,
  get_my_groups, get_group_detail, update_group, invite_member_handler, kick_member_handler,
  leave_group_handler, dissolve_group_handler, update_member_role_handler, get_role,
  replace_permissions,
}

pub data Request : Type 0 where
  to_create : (new_id now : ℕ) → (name : Option Text) → Request
  to_list_mine : Request
  to_leave to_view to_dissolve : (group_id : ℕ) → Request
  to_rename : (group_id : ℕ) → (name : Option Text) → Request
  to_invite : (group_id : ℕ) → (user_and_role : Option (ℕ × ℕ)) → Request
  to_kick : (group_id member_id : ℕ) → Request
  to_change_role : (group_id member_id : ℕ) → (role_id : Option ℕ) → Request
  to_list_roles to_list_permissions : Request
  to_get_role : (role_id : Option ℤ) → Request
  to_replace : (role_id : Option ℤ) → (permission_ids : Option (List ℤ)) → Request

-- The permission of a route, if it asks for one.
unfoldable pub required : Request → Option Text
required (to_create new_id now name) = none
required to_list_mine = none
required (to_leave k) = none
required (to_view k) = some (codes "group:view")
required (to_rename k name) = some (codes "group:edit")
required (to_dissolve k) = some (codes "group:delete")
required (to_invite k member) = some (codes "group:invite")
required (to_kick k m) = some (codes "group:kick")
required (to_change_role k m role) = some (codes "group:edit")
required to_list_roles = some (codes "role:manage")
required to_list_permissions = some (codes "role:manage")
required (to_get_role k) = some (codes "role:manage")
required (to_replace k ids) = some (codes "role:manage")

-- The parameter `id` of a path.
unfoldable pub path_id : Request → Option ℕ
path_id (to_leave k) = some k
path_id (to_view k) = some k
path_id (to_rename k name) = some k
path_id (to_dissolve k) = some k
path_id (to_invite k member) = some k
path_id (to_kick k m) = some k
path_id (to_change_role k m role) = some k
path_id _ = none

-- The handler of a route.
unfoldable pub handle : Sending → (node user_id : ℕ) → Request → Cluster → Reply Answer × Cluster
handle to n u (to_create new_id now name) c = register_group_handler new_id now u name c
handle to n u to_list_mine c = get_my_groups u c
handle to n u (to_leave k) c = leave_group_handler to n k u c
handle to n u (to_view k) c = get_group_detail k c
handle to n u (to_rename k name) c = update_group k name c
handle to n u (to_dissolve k) c = dissolve_group_handler to n k c
handle to n u (to_invite k member) c = invite_member_handler to n k member c
handle to n u (to_kick k m) c = kick_member_handler to n k m c
handle to n u (to_change_role k m role) c = update_member_role_handler to n k m role c
handle to n u to_list_roles c = (answered (role_list (list_roles c.roles)), c)
handle to n u to_list_permissions c = (answered (permission_list (list_permissions c.roles)), c)
handle to n u (to_get_role k) c = get_role k c
handle to n u (to_replace k ids) c = replace_permissions to n k ids c

-- `OptionalCasbinRequire`
unfoldable pub optional_casbin_require :
    AuthzLib
    → Sending
    → Check
    → (node user_id : ℕ) → (permission : Text) → (domain : Option ℕ) → Cluster
    → Reply (Unit {0}) × Cluster
optional_casbin_require lib to check n u permission domain c =
    if to.casbin_authz
    then casbin_require lib check n permission (some u) domain c
    else (answered tt, c)

unfoldable pub after_check :
    Sending → (node user_id : ℕ) → Request → Reply (Unit {0}) × Cluster → Reply Answer × Cluster
after_check to n u req (refused status code, c) = (refused status code, c)
after_check to n u req (answered _, c) = handle to n u req c

unfoldable pub serve_asking :
    Option Text
    → AuthzLib
    → Sending
    → Check
    → (node user_id : ℕ) → Request
    → Cluster
    → Reply Answer × Cluster
serve_asking none lib to check n u req c = handle to n u req c
serve_asking (some permission) lib to check n u req c = after_check to n u req (
    optional_casbin_require lib to check n u permission (resource_domain (path_id req) none none) c)

-- A request of a user to a node.
unfoldable pub serve :
    AuthzLib → Sending → Check → (node user_id : ℕ) → Request → Cluster → Reply Answer × Cluster
serve lib to check n u req c = serve_asking (required req) lib to check n u req c

-- What the nodes do: one serves a request, or consumes a message.
pub data Event : Type 0 where
  to_serve : Check → (node user_id : ℕ) → Request → Event
  to_consume : (node : ℕ) → Event

unfoldable pub step : AuthzLib → Sending → Event → Cluster → Cluster
step lib to (to_serve check n u req) c = let (_, c') = serve lib to check n u req c in c'
step lib to (to_consume n) c = consume n c

unfoldable pub run : AuthzLib → Sending → List Event → Cluster → Cluster
run lib to [] c = c
run lib to (e ∷ events) c = run lib to events (step lib to e c)
