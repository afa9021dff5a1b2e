-- ===== src/Authz/Served.antt =====
-- The handlers leave the pools of the nodes coherent (services/iam/app/group_auth.go, role_auth.go).
use my_go_market.Prelude.{
  ℕ, true, none, some, List, ◌≡◌, ◌≢◌, refl, ◌==◌, arith, ap, sym, subst, ◌∙◌, Bool-cases, inl, inr,
  ==_iff,
}
use my_go_market.Prelude.Text.{Text}
use my_go_market.Errors.{Error, Result, ok, err, Result-cases}
use my_go_market.Iam.Roles.{RoleStore, LoadedRole, find_role}
use my_go_market.Iam.RoleLaws.{replace_role_permissions-err}
use my_go_market.Iam.Groups.{
  Group, Member, GroupStore, register_group, save, add_member, owner_role, get_group_full_detail,
}
use my_go_market.Authz.Policies.{Policy, GRule, p_rules, load_filtered_policy}
use my_go_market.Authz.Nodes.{Cluster, Sending}
use my_go_market.Authz.Handlers.{
  members_changed, answer_created, register_group_handler, get_group_detail, answer_detail,
  answer_role, answer_updated, update_group, invite_member_handler, kick_member_handler,
  leave_group_handler, dissolve_group_handler, update_member_role_handler, row_id, get_role,
  answer_replaced, replace_permissions, get_my_groups,
}
use my_go_market.Authz.Routes.{
  Request, to_create, to_list_mine, to_leave, to_view, to_dissolve, to_rename, to_invite, to_kick,
  to_change_role, to_list_roles, to_list_permissions, to_get_role, to_replace, handle,
}
use my_go_market.Authz.Settled.{IsGood, settled, settled-absent}
use my_go_market.Authz.Others.{
  KeepsLinks, links_in, save-KeepsLinks, add_member-KeepsLinks, invite-KeepsLinks, kick-KeepsLinks,
  leave-KeepsLinks, dissolve-KeepsLinks, change_role-KeepsLinks, rename-KeepsLinks,
}
use my_go_market.Authz.Coherence.{policy_now, IsCoherent, invalidate-IsCoherent, purge-IsCoherent}

-- A new group's id is in no pool when the group is created.
abbrev pub IsUnseen : Request → Cluster → Type 0
IsUnseen (to_create new_id now name) c = (m : ℕ) → (c.nodes m).pool new_id ≡ none
IsUnseen _ c = Unit

policy-links :
    (c : Cluster) (groups : GroupStore) (d : ℕ)
    → links_in d c.roles.roles groups ≡ links_in d c.roles.roles c.groups
    → policy_now (record c { groups = groups }) d ≡ policy_now c d
unfolding load_filtered_policy
policy-links c groups d e =
    ap
      (λ (links : List GRule). record {
        rules = p_rules c.roles.roles c.roles.permissions c.roles.grants;
        links = links;
      })
      e

module _ (to : Sending) (on : to.casbin_authz ≡ true) (up : to.broker ≡ true) where
  members_changed-IsCoherent :
      (n k status : ℕ) (code : Text) (r : Result GroupStore) (c : Cluster)
      → IsCoherent c
      → ((d : ℕ) → k ≢ d → KeepsLinks d c.roles.roles c.groups r)
      → IsCoherent (members_changed to n k status code r c).1
  unfolding members_changed
  members_changed-IsCoherent n k status code (err e) c h others = h
  members_changed-IsCoherent n k status code (ok groups) c h others =
      invalidate-IsCoherent to n k c groups on up h
        (λ d differ. policy-links c groups d (others d differ))

  answer_updated-IsCoherent :
      (r : Result GroupStore) (c : Cluster)
      → IsCoherent c
      → ((d : ℕ) → KeepsLinks d c.roles.roles c.groups r)
      → IsCoherent (answer_updated r c).1
  unfolding answer_updated
  answer_updated-IsCoherent (err e) c h same n d = h n d
  answer_updated-IsCoherent (ok groups) c h same n d =
      subst (λ (p : Policy). IsGood p (settled (c.nodes n).inbox (c.nodes n).pool d))
        (sym (policy-links c groups d (same d))) (h n d)

  answer_replaced-IsCoherent :
      (n : ℕ) (r : Result LoadedRole × RoleStore) (c : Cluster)
      → IsCoherent c
      → ((e : Error) → r.0 ≡ err e → r.1 ≡ c.roles)
      → IsCoherent (answer_replaced to n r c).1
  unfolding answer_replaced
  answer_replaced-IsCoherent n (err e, roles) c h kept m d =
      subst
        (λ (rs : RoleStore).
          IsGood (policy_now (record c { roles = rs }) d)
            (settled (c.nodes m).inbox (c.nodes m).pool d))
        (sym (kept e refl)) (h m d)
  answer_replaced-IsCoherent n (ok r, roles) c h kept m d =
      purge-IsCoherent to n (record c { roles = roles }) on up m d

-- A registration changes the rules of its own domain only.
register-links :
    (d : ℕ) (c : Cluster) (k now : ℕ) (name : Text) (u : ℕ)
    → k ≢ d
    → links_in d c.roles.roles (register_group k now name u c.groups).1
      ≡ links_in d c.roles.roles c.groups
unfolding register_group
register-links d c k now name u differ =
    let roles = c.roles.roles in
    let g : Group = record { group_id = k; group_name = name; owner_id = u; created_at = now } in
    let result = register_group k now name u c.groups in
    let links = links_in d roles in
    elim (Result-cases (save g c.groups)) [
      | inr (e, unsaved) ↦ let same : result.1 ≡ c.groups = ground (arith, unsaved) in ap links same
      | inl (s1, saved) ↦
          let e1 : links s1 ≡ links c.groups =
            subst (KeepsLinks d roles c.groups) saved (save-KeepsLinks d roles c.groups g) in
          elim (Result-cases (add_member k u owner_role s1)) [
            | inr (e, unadded) ↦
                let same : result.1 ≡ s1 = ground (arith, saved, unadded) in ap links same ∙ e1
            | inl (s2, added) ↦
                let same : result.1 ≡ s2 = ground (arith, saved, added) in
                let e2 : links s2 ≡ links s1 =
                  subst (KeepsLinks d roles s1) added
                    (add_member-KeepsLinks d roles s1 k differ u owner_role) in
                ap links same ∙ e2 ∙ e1
          ]
    ]

answer_detail-tables : (r : Result (Group × List Member)) (c : Cluster) → (answer_detail r c).1 ≡ c
unfolding answer_detail
answer_detail-tables (err e) c = refl
answer_detail-tables (ok d) c = refl

answer_role-tables : (r : Result LoadedRole) (c : Cluster) → (answer_role r c).1 ≡ c
unfolding answer_role
answer_role-tables (err e) c = refl
answer_role-tables (ok r) c = refl

answer_created-tables :
    (r : Result Group × GroupStore) (c : Cluster)
    → (answer_created r c).1 ≡ record c { groups = r.1 }
unfolding answer_created
answer_created-tables (err e, groups) c = refl
answer_created-tables (ok g, groups) c = refl

register-IsCoherent :
    (k now : ℕ) (name : Text) (u : ℕ) (c : Cluster)
    → IsCoherent c
    → ((m : ℕ) → (c.nodes m).pool k ≡ none)
    → IsCoherent (record c { groups = (register_group k now name u c.groups).1 })
register-IsCoherent k now name u c h unseen m d = elim (Bool-cases (k == d)) [
  | inl this ↦
      let empty : settled (c.nodes m).inbox (c.nodes m).pool d ≡ none =
        settled-absent (c.nodes m).inbox (c.nodes m).pool d
          (ap (c.nodes m).pool (sym ((==_iff k d).0 this)) ∙ unseen m) in
      subst (IsGood (policy_now (record c { groups = (register_group k now name u c.groups).1 }) d))
        (sym empty) tt
  | inr other ↦
      subst (λ (p : Policy). IsGood p (settled (c.nodes m).inbox (c.nodes m).pool d))
        (sym (
          policy-links c (register_group k now name u c.groups).1 d
            (register-links d c k now name u (ground (arith, other)))))
        (h m d)
]

module _ (to : Sending) (on : to.casbin_authz ≡ true) (up : to.broker ≡ true) where
  pub handle-IsCoherent :
      (n u : ℕ) (req : Request) (c : Cluster)
      → IsUnseen req c
      → IsCoherent c
      → IsCoherent (handle to n u req c).1
  unfolding handle register_group_handler get_my_groups update_group invite_member_handler
      kick_member_handler leave_group_handler dissolve_group_handler update_member_role_handler
      replace_permissions get_role get_group_detail
  handle-IsCoherent n u (to_create k now none) c new h = h
  handle-IsCoherent n u (to_create k now (some name)) c new h =
      subst IsCoherent (sym (answer_created-tables (register_group k now name u c.groups) c))
        (register-IsCoherent k now name u c h new)
  handle-IsCoherent n u to_list_mine c new h = h
  handle-IsCoherent n u (to_leave k) c new h =
      members_changed-IsCoherent to on up n k _ _ _ c h
        (λ d differ. leave-KeepsLinks d c.roles.roles c.groups k differ u)
  handle-IsCoherent n u (to_view k) c new h =
      subst IsCoherent (sym (answer_detail-tables (get_group_full_detail k c.groups) c)) h
  handle-IsCoherent n u (to_rename k none) c new h = h
  handle-IsCoherent n u (to_rename k (some name)) c new h =
      answer_updated-IsCoherent to on up _ c h
        (λ d. rename-KeepsLinks d c.roles.roles c.groups k name)
  handle-IsCoherent n u (to_dissolve k) c new h =
      members_changed-IsCoherent to on up n k _ _ _ c h
        (λ d differ. dissolve-KeepsLinks d c.roles.roles c.groups k differ)
  handle-IsCoherent n u (to_invite k none) c new h = h
  handle-IsCoherent n u (to_invite k (some (m, role))) c new h =
      members_changed-IsCoherent to on up n k _ _ _ c h
        (λ d differ. invite-KeepsLinks d c.roles.roles c.groups k differ m role)
  handle-IsCoherent n u (to_kick k m) c new h =
      members_changed-IsCoherent to on up n k _ _ _ c h
        (λ d differ. kick-KeepsLinks d c.roles.roles c.groups k differ m)
  handle-IsCoherent n u (to_change_role k m none) c new h = h
  handle-IsCoherent n u (to_change_role k m (some role)) c new h =
      members_changed-IsCoherent to on up n k _ _ _ c h
        (λ d differ. change_role-KeepsLinks d c.roles.roles c.groups k differ m role)
  handle-IsCoherent n u to_list_roles c new h = h
  handle-IsCoherent n u to_list_permissions c new h = h
  handle-IsCoherent n u (to_get_role none) c new h = h
  handle-IsCoherent n u (to_get_role (some k)) c new h =
      subst IsCoherent (sym (answer_role-tables (find_role (row_id k) c.roles) c)) h
  handle-IsCoherent n u (to_replace none ids) c new h = h
  handle-IsCoherent n u (to_replace (some k) none) c new h = h
  handle-IsCoherent n u (to_replace (some k) (some ids)) c new h =
      answer_replaced-IsCoherent to on up n _ c h
        (λ e refused. replace_role_permissions-err (row_id k) ids c.roles refused)
