-- ===== src/Authz/Alike.antt =====
-- A handler's reply and the tables that it leaves depend on no pool (services/iam/app).
use my_go_market.Prelude.{ℕ, none, some, List, ◌≡◌, refl}
use my_go_market.Prelude.Text.{Text}
use my_go_market.Errors.{Result, ok, err}
use my_go_market.Web.{Reply, refused, answered}
use my_go_market.Iam.Roles.{RoleStore, LoadedRole, find_role}
use my_go_market.Iam.Groups.{Group, Member, GroupStore, register_group, get_group_full_detail}
use my_go_market.Authz.Nodes.{Node, Cluster, Sending}
use my_go_market.Authz.Handlers.{
  Answer, members_changed, answer_created, register_group_handler, get_group_detail, answer_detail,
  answer_role, answer_updated, update_group, get_my_groups, invite_member_handler,
  kick_member_handler, leave_group_handler, dissolve_group_handler, update_member_role_handler,
  row_id, get_role, answer_replaced, replace_permissions, invalidate_and_broadcast,
  purge_and_broadcast,
}
use my_go_market.Authz.Routes.{
  Request, to_create, to_list_mine, to_leave, to_view, to_dissolve, to_rename, to_invite, to_kick,
  to_change_role, to_list_roles, to_list_permissions, to_get_role, to_replace, handle, after_check,
}

-- Two outcomes with one reply and the same tables.
abbrev pub AreAlike : Reply Answer × Cluster → Reply Answer × Cluster → Type 0
AreAlike (r, c) (r', c') = (r ≡ r') × (c.groups ≡ c'.groups) × (c.roles ≡ c'.roles)

module _ (to : Sending) (n u : ℕ) (c : Cluster) (nodes : ℕ → Node) where
  members_changed-AreAlike :
      (k status : ℕ) (code : Text) (r : Result GroupStore)
      → AreAlike
          (members_changed to n k status code r (record c { nodes = nodes }))
          (members_changed to n k status code r c)
  unfolding members_changed invalidate_and_broadcast
  members_changed-AreAlike k status code (err e) = (refl, refl, refl)
  members_changed-AreAlike k status code (ok groups) = (refl, refl, refl)

  answer_created-AreAlike :
      (r : Result Group × GroupStore)
      → AreAlike (answer_created r (record c { nodes = nodes })) (answer_created r c)
  unfolding answer_created
  answer_created-AreAlike (err e, groups) = (refl, refl, refl)
  answer_created-AreAlike (ok g, groups) = (refl, refl, refl)

  answer_updated-AreAlike :
      (r : Result GroupStore)
      → AreAlike (answer_updated r (record c { nodes = nodes })) (answer_updated r c)
  unfolding answer_updated
  answer_updated-AreAlike (err e) = (refl, refl, refl)
  answer_updated-AreAlike (ok groups) = (refl, refl, refl)

  answer_detail-AreAlike :
      (r : Result (Group × List Member))
      → AreAlike (answer_detail r (record c { nodes = nodes })) (answer_detail r c)
  unfolding answer_detail
  answer_detail-AreAlike (err e) = (refl, refl, refl)
  answer_detail-AreAlike (ok d) = (refl, refl, refl)

  answer_role-AreAlike :
      (r : Result LoadedRole)
      → AreAlike (answer_role r (record c { nodes = nodes })) (answer_role r c)
  unfolding answer_role
  answer_role-AreAlike (err e) = (refl, refl, refl)
  answer_role-AreAlike (ok r) = (refl, refl, refl)

  answer_replaced-AreAlike :
      (r : Result LoadedRole × RoleStore)
      → AreAlike (answer_replaced to n r (record c { nodes = nodes })) (answer_replaced to n r c)
  unfolding answer_replaced purge_and_broadcast
  answer_replaced-AreAlike (err e, roles) = (refl, refl, refl)
  answer_replaced-AreAlike (ok r, roles) = (refl, refl, refl)

  -- Which pools and messages there are is nothing to a handler's reply and the tables.
  handle-AreAlike :
      (req : Request)
      → AreAlike (handle to n u req (record c { nodes = nodes })) (handle to n u req c)
  unfolding handle register_group_handler get_my_groups update_group invite_member_handler
      kick_member_handler leave_group_handler dissolve_group_handler update_member_role_handler
      replace_permissions get_role get_group_detail
  handle-AreAlike (to_create k now none) = (refl, refl, refl)
  handle-AreAlike (to_create k now (some name)) =
      answer_created-AreAlike (register_group k now name u c.groups)
  handle-AreAlike to_list_mine = (refl, refl, refl)
  handle-AreAlike (to_leave k) = members_changed-AreAlike k _ _ _
  handle-AreAlike (to_view k) = answer_detail-AreAlike (get_group_full_detail k c.groups)
  handle-AreAlike (to_rename k none) = (refl, refl, refl)
  handle-AreAlike (to_rename k (some name)) = answer_updated-AreAlike _
  handle-AreAlike (to_dissolve k) = members_changed-AreAlike k _ _ _
  handle-AreAlike (to_invite k none) = (refl, refl, refl)
  handle-AreAlike (to_invite k (some (m, role))) = members_changed-AreAlike k _ _ _
  handle-AreAlike (to_kick k m) = members_changed-AreAlike k _ _ _
  handle-AreAlike (to_change_role k m none) = (refl, refl, refl)
  handle-AreAlike (to_change_role k m (some role)) = members_changed-AreAlike k _ _ _
  handle-AreAlike to_list_roles = (refl, refl, refl)
  handle-AreAlike to_list_permissions = (refl, refl, refl)
  handle-AreAlike (to_get_role none) = (refl, refl, refl)
  handle-AreAlike (to_get_role (some k)) = answer_role-AreAlike (find_role (row_id k) c.roles)
  handle-AreAlike (to_replace none ids) = (refl, refl, refl)
  handle-AreAlike (to_replace (some k) none) = (refl, refl, refl)
  handle-AreAlike (to_replace (some k) (some ids)) = answer_replaced-AreAlike _

  pub after_check-AreAlike :
      (req : Request) (reply : Reply (Unit {0}))
      → AreAlike
          (after_check to n u req (reply, record c { nodes = nodes }))
          (after_check to n u req (reply, c))
  unfolding after_check
  after_check-AreAlike req (refused status code) = (refl, refl, refl)
  after_check-AreAlike req (answered ok_to_go) = handle-AreAlike req
