-- ===== src/Authz/Handlers.antt =====
-- services/iam/app/group_auth.go and role_auth.go as the routes of services/iam/router.go reach them:
-- the middleware first, then the handler, on one node. A body that does not bind is none; the answers
-- are what the JSON shows, and the audit events are left out.
use my_go_market.Prelude.{ℕ, Bool, true, false, Option, none, some, List, [], ◌∷◌, if◌then◌else◌}
use my_go_market.Prelude.Int.{ℤ, pos, negsuc}
use my_go_market.Prelude.Text.{Text, codes}
use my_go_market.Errors.{Result, ok, err}
use my_go_market.Web.{Reply, refused, answered}
use my_go_market.Table.{where_rows, sort_by}
use my_go_market.Iam.Roles.{
  Permission, Role, RoleStore, LoadedRole, list_permissions_by_role_id, role_key, find_role,
  replace_role_permissions,
}
use my_go_market.Iam.Groups.{
  Group, Member, GroupStore, is_member, register_group, update_group_info, invite_member,
  update_member_role, leave_group, get_group_full_detail, dissolve_group, kick_member,
}
use my_go_market.Authz.Policies.{permission_key}
use my_go_market.Authz.Pool.{invalidate_domain, purge_all}
use my_go_market.Authz.Nodes.{
  to_invalidate, to_purge, Cluster, with_pool, Sending, publish_casbin_sync,
}

-- `ListRoles`, `ListPermissions` and `FindGroupsByUserID` of the repositories.

unfoldable pub load_roles : List Role → RoleStore → List LoadedRole
load_roles [] s = []
load_roles (r ∷ rs) s =
    record { role = r; permissions = list_permissions_by_role_id r.role_id s.grants s.permissions }
    ∷ load_roles rs s

unfoldable pub list_roles : RoleStore → List LoadedRole
list_roles s = load_roles (sort_by role_key s.roles) s

unfoldable pub list_permissions : RoleStore → List Permission
list_permissions s = sort_by permission_key s.permissions

unfoldable pub has_member : (user_id : ℕ) → List Member → Group → Bool
has_member u [] g = false
has_member u (m ∷ ms) g =
    let rest = has_member u ms g in if is_member g.group_id u m then true else rest

unfoldable pub find_groups_by_user_id : (user_id : ℕ) → GroupStore → List Group
find_groups_by_user_id u s = where_rows (has_member u s.members) s.groups

-- What the handlers answer.
pub data Answer : Type 0 where
  message : Answer
  created : Group → Answer
  my_groups : List Group → Answer
  detail : Group × List Member → Answer
  role_list : List LoadedRole → Answer
  role_view : LoadedRole → Answer
  permission_list : List Permission → Answer

-- `invalidateAndBroadcast` and `purgeCasbinAndBroadcast`, on a node.

unfoldable pub invalidate_and_broadcast : Sending → (node group_id : ℕ) → Cluster → Cluster
invalidate_and_broadcast to n k c = record c {
  nodes = publish_casbin_sync to (to_invalidate k) (with_pool n (invalidate_domain k) c.nodes);
}

unfoldable pub purge_and_broadcast : Sending → (node : ℕ) → Cluster → Cluster
purge_and_broadcast to n c = record c {
  nodes = publish_casbin_sync to to_purge (with_pool n purge_all c.nodes);
}

-- A handler that changes the members of a group, from what the service returns.
unfoldable pub members_changed :
    Sending
    → (node group_id : ℕ) → (status : ℕ) → (code : Text) → Result GroupStore
    → Cluster
    → Reply Answer × Cluster
members_changed to n k status code (err e) c = (refused status code, c)
members_changed to n k status code (ok groups) c =
    (answered message, invalidate_and_broadcast to n k (record c { groups = groups }))

-- The handlers.

unfoldable pub answer_created : Result Group × GroupStore → Cluster → Reply Answer × Cluster
answer_created (err e, groups) c =
    (refused 500 (codes "GROUP_CREATE_FAILED"), record c { groups = groups })
answer_created (ok g, groups) c = (answered (created g), record c { groups = groups })

unfoldable pub register_group_handler :
    (new_id now user_id : ℕ) → (name : Option Text) → Cluster → Reply Answer × Cluster
register_group_handler new_id now u none c = (refused 400 (codes "INVALID_REQUEST"), c)
register_group_handler new_id now u (some name) c =
    answer_created (register_group new_id now name u c.groups) c

unfoldable pub get_my_groups : (user_id : ℕ) → Cluster → Reply Answer × Cluster
get_my_groups u c = (answered (my_groups (find_groups_by_user_id u c.groups)), c)

unfoldable pub answer_detail : Result (Group × List Member) → Cluster → Reply Answer × Cluster
answer_detail (err e) c = (refused 403 (codes "GROUP_ACCESS_DENIED"), c)
answer_detail (ok d) c = (answered (detail d), c)

unfoldable pub get_group_detail : (group_id : ℕ) → Cluster → Reply Answer × Cluster
get_group_detail k c = answer_detail (get_group_full_detail k c.groups) c

unfoldable pub answer_updated : Result GroupStore → Cluster → Reply Answer × Cluster
answer_updated (err e) c = (refused 403 (codes "GROUP_UPDATE_DENIED"), c)
answer_updated (ok groups) c = (answered message, record c { groups = groups })

unfoldable pub update_group :
    (group_id : ℕ) → (name : Option Text) → Cluster → Reply Answer × Cluster
update_group k none c = (refused 400 (codes "INVALID_REQUEST"), c)
update_group k (some name) c = answer_updated (update_group_info k name c.groups) c

unfoldable pub invite_member_handler :
    Sending
    → (node group_id : ℕ) → (user_and_role : Option (ℕ × ℕ)) → Cluster
    → Reply Answer × Cluster
invite_member_handler to n k none c = (refused 400 (codes "INVALID_REQUEST"), c)
invite_member_handler to n k (some (u, role)) c =
    members_changed to n k 403 (codes "GROUP_INVITE_DENIED") (invite_member k u role c.groups) c

unfoldable pub kick_member_handler :
    Sending → (node group_id user_id : ℕ) → Cluster → Reply Answer × Cluster
kick_member_handler to n k u c =
    members_changed to n k 403 (codes "GROUP_KICK_DENIED") (kick_member k u c.groups) c

unfoldable pub leave_group_handler :
    Sending → (node group_id user_id : ℕ) → Cluster → Reply Answer × Cluster
leave_group_handler to n k u c =
    members_changed to n k 400 (codes "GROUP_LEAVE_FAILED") (leave_group u k c.groups) c

unfoldable pub dissolve_group_handler :
    Sending → (node group_id : ℕ) → Cluster → Reply Answer × Cluster
dissolve_group_handler to n k c =
    members_changed to n k 403 (codes "GROUP_DISSOLVE_DENIED") (dissolve_group k c.groups) c

unfoldable pub update_member_role_handler :
    Sending → (node group_id user_id : ℕ) → (role_id : Option ℕ) → Cluster → Reply Answer × Cluster
update_member_role_handler to n k u none c = (refused 400 (codes "INVALID_REQUEST"), c)
update_member_role_handler to n k u (some role) c =
    members_changed to n k 403 (codes "GROUP_MEMBER_ROLE_UPDATE_DENIED")
      (update_member_role k u role c.groups) c

-- The key that a role id of a path looks up; no row has a key below 1.
abbrev pub row_id : ℤ → ℕ
row_id (pos k) = k
row_id (negsuc k) = 0

unfoldable pub answer_role : Result LoadedRole → Cluster → Reply Answer × Cluster
answer_role (err e) c = (refused 404 (codes "ROLE_NOT_FOUND"), c)
answer_role (ok r) c = (answered (role_view r), c)

unfoldable pub get_role : (role_id : Option ℤ) → Cluster → Reply Answer × Cluster
get_role none c = (refused 400 (codes "INVALID_ROLE_ID"), c)
get_role (some k) c = answer_role (find_role (row_id k) c.roles) c

unfoldable pub answer_replaced :
    Sending → (node : ℕ) → Result LoadedRole × RoleStore → Cluster → Reply Answer × Cluster
answer_replaced to n (err e, roles) c =
    (refused 400 (codes "ROLE_PERMISSION_UPDATE_FAILED"), record c { roles = roles })
answer_replaced to n (ok r, roles) c =
    (answered (role_view r), purge_and_broadcast to n (record c { roles = roles }))

unfoldable pub replace_permissions :
    Sending
    → (node : ℕ) → (role_id : Option ℤ) → (permission_ids : Option (List ℤ)) → Cluster
    → Reply Answer × Cluster
replace_permissions to n none ids c = (refused 400 (codes "INVALID_ROLE_ID"), c)
replace_permissions to n (some k) none c = (refused 400 (codes "INVALID_REQUEST"), c)
replace_permissions to n (some k) (some ids) c =
    answer_replaced to n (replace_role_permissions (row_id k) ids c.roles) c
