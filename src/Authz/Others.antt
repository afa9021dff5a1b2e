-- ===== src/Authz/Others.antt =====
-- The service of groups changes the members of the group that it is asked about, and of no other
-- (services/iam/app/services/group_service.go), as far as policies see.
use my_go_market.Prelude.{
  ℕ, false, not, some, List, ◌≡◌, ◌≢◌, refl, ◌==◌, ◌&&◌, arith, sym, subst, Bool-cases,
  Option-cases, inl, inr, ==_iff,
}
use my_go_market.Errors.{Result, ok, err, unique_violation, ◌>>=◌, fail_if}
use my_go_market.Table.{find_by, lookup}
use my_go_market.Iam.Roles.{Role, elem}
use my_go_market.Iam.Groups.{
  Group, group_key, GroupStore, is_member, is_other, has_group, find_group, save, get_member,
  add_member, remove_member, update_role, delete, or_member, update_group_info, invite_member,
  update_member_role, leave_group, dissolve_group, kick_member, or_group, set_roles, not_in_group,
}
use my_go_market.Authz.Policies.{GRule, g_rules}
use my_go_market.Authz.Links.{g_rules-other, g_rules-where, g_rules-set_roles}

-- The rules of a domain, by the members that a store has.
abbrev pub links_in : ℕ → List Role → GroupStore → List GRule
links_in d roles s = g_rules (some d) roles s.members

-- Where a call succeeds, the rules of this domain are as they were.
abbrev pub KeepsLinks : ℕ → List Role → GroupStore → Result GroupStore → Type 0
KeepsLinks d roles s (err e) = Unit
KeepsLinks d roles s (ok s') = links_in d roles s' ≡ links_in d roles s

module _ (d : ℕ) (roles : List Role) (s : GroupStore) where
  after_bind :
      {X : Type 0} (call : Result X) (rest : X → Result GroupStore)
      → ((x : X) → KeepsLinks d roles s (rest x))
      → KeepsLinks d roles s (call >>= rest)
  after_bind (err e) rest h = tt
  after_bind (ok x) rest h = h x

  module _ (k : ℕ) (other : k ≢ d) where
    different : (k == d) ≡ false
    different = elim (Bool-cases (k == d)) [
      | inl same ↦ absurd (other ((==_iff k d).0 same))
      | inr differ ↦ differ
    ]

    pub add_member-KeepsLinks : (u role : ℕ) → KeepsLinks d roles s (add_member k u role s)
    unfolding add_member
    add_member-KeepsLinks u role =
        after_bind (fail_if (not (has_group k s && (elem u s.user_ids && elem role s.role_ids))) _)
          _
          (λ _. elim (Option-cases (find_by (is_member k u) s.members)) [
            | inl absent ↦ rw absent (g_rules-other d roles _ s.members different)
            | inr (m, present) ↦ rw present tt
          ])

    remove_member-KeepsLinks : (u : ℕ) → KeepsLinks d roles s (ok (remove_member k u s))
    unfolding remove_member
    remove_member-KeepsLinks u =
        g_rules-where d roles (is_other k u) s.members (λ m here. ground (arith, here, other))

    delete-KeepsLinks : KeepsLinks d roles s (ok (delete k s))
    unfolding delete
    delete-KeepsLinks =
        g_rules-where d roles (not_in_group k) s.members (λ m here. ground (arith, here, other))

    update_role-KeepsLinks : (u role : ℕ) → KeepsLinks d roles s (update_role k u role s)
    unfolding update_role
    update_role-KeepsLinks u role = elim (Option-cases (find_by (is_member k u) s.members)) [
      | inl absent ↦
          let e : update_role k u role s ≡ ok s = ground (arith, absent) in
          subst (KeepsLinks d roles s) (sym e) refl
      | inr (m, present) ↦ elim (Bool-cases (elem role s.role_ids)) [
        | inl known ↦
            let e : update_role k u role s
                ≡ ok (record s { members = set_roles k u role s.members }) =
              ground (arith, present, known) in
            subst (KeepsLinks d roles s) (sym e)
              (g_rules-set_roles d k u role roles s.members other)
        | inr unknown ↦
            let e : update_role k u role s ≡ err unique_violation =
              ground (arith, present, unknown) in
            subst (KeepsLinks d roles s) (sym e) tt
      ]
    ]

    pub invite-KeepsLinks : (u role : ℕ) → KeepsLinks d roles s (invite_member k u role s)
    unfolding invite_member
    invite-KeepsLinks = add_member-KeepsLinks

    pub kick-KeepsLinks : (u : ℕ) → KeepsLinks d roles s (kick_member k u s)
    unfolding kick_member
    kick-KeepsLinks = remove_member-KeepsLinks

    pub leave-KeepsLinks : (u : ℕ) → KeepsLinks d roles s (leave_group u k s)
    unfolding leave_group
    leave-KeepsLinks u =
        after_bind (find_group k s) _
          (λ g. after_bind (fail_if (g.owner_id == u) _) _ (λ _. remove_member-KeepsLinks u))

    pub dissolve-KeepsLinks : KeepsLinks d roles s (dissolve_group k s)
    unfolding dissolve_group
    dissolve-KeepsLinks = after_bind (or_group (find_group k s)) _ (λ _. delete-KeepsLinks)

    pub change_role-KeepsLinks : (u role : ℕ) → KeepsLinks d roles s (update_member_role k u role s)
    unfolding update_member_role
    change_role-KeepsLinks u role = after_bind (find_group k s) _ (λ g.
        after_bind (fail_if (g.owner_id == u) _) _
          (λ _. after_bind (or_member (get_member k u s)) _ (λ _. update_role-KeepsLinks u role)))

  pub save-KeepsLinks : (g : Group) → KeepsLinks d roles s (save g s)
  unfolding save
  save-KeepsLinks g = elim (Bool-cases (elem g.owner_id s.user_ids)) [
    | inr unknown ↦ simp (unknown, KeepsLinks) tt
    | inl known ↦ elim (Option-cases (lookup group_key g.group_id s.groups)) [
      | inl absent ↦ simp (known, absent, KeepsLinks) refl
      | inr (row, present) ↦ simp (known, present, KeepsLinks) refl
    ]
  ]

  pub rename-KeepsLinks : (k : ℕ) (name : _) → KeepsLinks d roles s (update_group_info k name s)
  unfolding update_group_info
  rename-KeepsLinks k name = after_bind (find_group k s) _ (λ g. save-KeepsLinks _)
