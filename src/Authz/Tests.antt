-- ===== src/Authz/Tests.antt =====
-- The theorem on authorisation for two nodes and a group.
use my_go_market.Prelude.{ℕ, Bool, true, false, Option, some, List, [], ◌∷◌, refl, ◌==◌, ◌&&◌, ◌||◌}
use my_go_market.Prelude.Text.{Text, codes, text_eq}
use my_go_market.Iam.Roles.{RoleStore}
use my_go_market.Iam.Groups.{GroupStore}
use my_go_market.Authz.Policies.{PRule, GRule, Policy}
use my_go_market.Authz.Pool.{pool_ttl}
use my_go_market.Authz.Nodes.{Cluster, Sending, AuthzLib, Check}
use my_go_market.Authz.Routes.{
  Request, to_create, to_view, to_invite, to_kick, serve, Event, to_serve, to_consume, run,
}
use my_go_market.Authz.Alike.{AreAlike}
use my_go_market.Authz.Current.{AreUnseen, serve_now, fresh_cluster, served_as_now}

-- The matcher of config/casbin/RBAC.conf, without the inheritance of roles.

has_rule : (role_name permission : Text) → List PRule → Bool
has_rule role permission [] = false
has_rule role permission (r ∷ rules) =
    (text_eq r.role_name role && text_eq r.permission_code permission)
    || has_rule role permission rules

may : (user_id domain : ℕ) → Text → List PRule → List GRule → Bool
unfolding has_rule
may u d permission rules [] = false
may u d permission rules (l ∷ links) =
    (l.user_id == u && (l.group_id == d && has_rule l.role_name permission rules))
    || may u d permission rules links

enforce : Policy → (user_id domain : ℕ) → Text → Option Bool
unfolding may
enforce p u d permission = some (may u d permission p.rules p.links)

abbrev toy : AuthzLib
toy = record { enforce = enforce; ttl = 600_000_000_000 }

abbrev roles : RoleStore
roles = record {
  roles =
      record { role_id = 2; name = codes "owner" }
      ∷ record { role_id = 3; name = codes "guest" }
      ∷ [];
  permissions =
      record { permission_id = 1; code = codes "group:kick" }
      ∷ record { permission_id = 2; code = codes "group:invite" }
      ∷ [];
  grants =
      record { role_id = 2; permission_id = 1 } ∷ record { role_id = 2; permission_id = 2 } ∷ [];
}

abbrev groups : GroupStore
groups = record { user_ids = 10 ∷ 11 ∷ []; role_ids = 2 ∷ 3 ∷ []; groups = []; members = [] }

abbrev at : ℕ → Check
at t = record { now = t; evicted = λ d. false; database = true }

abbrev loud : Sending
loud = record { casbin_authz = true; broker = true }

-- The owner makes a group and lets a guest in on node 0; node 1, which served the group before, learns
-- of it.
abbrev history : List Event
history =
    to_serve (at 1) 0 10 (to_create 50 1 (some (codes "team")))
    ∷ to_serve (at 2) 1 11 (to_view 50)
    ∷ to_serve (at 3) 0 10 (to_invite 50 (some (11, 3)))
    ∷ to_consume 1
    ∷ []

history-AreUnseen : AreUnseen toy loud history (fresh_cluster groups roles)
unfolding AreUnseen
history-AreUnseen = ((λ m. refl), (tt, (tt, tt)))

served_as_now_example :
    let c = run toy loud history (fresh_cluster groups roles) in
    AreAlike
      (serve toy loud (at 4) 1 10 (to_kick 50 11) c)
      (serve_now toy loud 1 10 (to_kick 50 11) c)
unfolding run my_go_market.Authz.Routes.step serve my_go_market.Authz.Routes.serve_asking
    my_go_market.Authz.Routes.required my_go_market.Authz.Routes.after_check
    my_go_market.Authz.Routes.optional_casbin_require my_go_market.Authz.Routes.path_id
    my_go_market.Authz.Routes.handle my_go_market.Authz.Nodes.casbin_require
    my_go_market.Authz.Nodes.decide_loaded my_go_market.Authz.Nodes.decide
    my_go_market.Authz.Nodes.resource_domain my_go_market.Authz.Nodes.publish_casbin_sync
    my_go_market.Authz.Nodes.consume my_go_market.Authz.Nodes.consume_node
    my_go_market.Authz.Nodes.handle_message my_go_market.Authz.Pool.get_enforcer
    my_go_market.Authz.Pool.or_else my_go_market.Authz.Pool.get_fresh
    my_go_market.Authz.Pool.if_fresh my_go_market.Authz.Pool.load_enforcer
    my_go_market.Authz.Pool.add my_go_market.Authz.Pool.remove
    my_go_market.Authz.Pool.invalidate_domain my_go_market.Authz.Handlers.register_group_handler
    my_go_market.Authz.Handlers.answer_created my_go_market.Authz.Handlers.answer_detail
    my_go_market.Authz.Handlers.get_group_detail my_go_market.Authz.Handlers.invite_member_handler
    my_go_market.Authz.Handlers.members_changed my_go_market.Authz.Handlers.invalidate_and_broadcast
    my_go_market.Authz.Policies.load_filtered_policy my_go_market.Authz.Policies.p_rules
    my_go_market.Authz.Policies.p_rule my_go_market.Authz.Policies.g_rules
    my_go_market.Authz.Policies.g_rule my_go_market.Authz.Policies.in_domain
    my_go_market.Iam.Groups.register_group my_go_market.Iam.Groups.save
    my_go_market.Iam.Groups.add_member my_go_market.Iam.Groups.invite_member
    my_go_market.Iam.Groups.find_group my_go_market.Iam.Groups.get_group_full_detail
    my_go_market.Iam.Roles.elem my_go_market.Table.lookup my_go_market.Table.find_by text_eq enforce
    may has_rule
served_as_now_example =
    served_as_now toy loud groups roles history (at 4) 1 10 (to_kick 50 11) refl refl
      history-AreUnseen refl refl
