-- ===== src/Authz/Links.antt =====
-- Which domains' policies a change of the members leaves as they are (common/utils/casbin_adapter.go
-- over services/iam/repository/group_repository.go).
use my_go_market.Prelude.{
  ℕ, Bool, true, false, some, List, [], ◌∷◌, ◌≡◌, ◌≢◌, refl, ◌==◌, arith, ap, Bool-cases, inl, inr,
}
use my_go_market.Table.{lookup, where_rows}
use my_go_market.Iam.Roles.{Role, role_key}
use my_go_market.Iam.Groups.{Member, set_roles}
use my_go_market.Authz.Policies.{in_domain, g_rule, g_rules}

-- Of rows outside a domain it has no rule.
pub g_rules-other :
    (d : ℕ) (roles : List Role) (m : Member) (ms : List Member)
    → (m.group_id == d) ≡ false
    → g_rules (some d) roles (m ∷ ms) ≡ g_rules (some d) roles ms
unfolding g_rules in_domain
g_rules-other d roles m ms other = rw other refl

pub g_rules-where :
    (d : ℕ) (roles : List Role) (keep : Member → Bool) (ms : List Member)
    → ((m : Member) → (m.group_id == d) ≡ true → keep m ≡ true)
    → g_rules (some d) roles (where_rows keep ms) ≡ g_rules (some d) roles ms
unfolding g_rules where_rows in_domain
g_rules-where d roles keep [] h = refl
g_rules-where d roles keep (m ∷ ms) h =
    let ih = g_rules-where d roles keep ms h in
    elim (Bool-cases (m.group_id == d)) [
      | inl here ↦
          rw (h m here, where_rows)
            (simp (here) (ap (g_rule (lookup role_key m.role_id roles) m) ih))
      | inr other ↦ elim (Bool-cases (keep m)) [
        | inl kept ↦ rw kept (simp (other) ih)
        | inr gone ↦ rw gone (simp (other) ih)
      ]
    ]

pub g_rules-set_roles :
    (d k u role : ℕ) (roles : List Role) (ms : List Member)
    → k ≢ d
    → g_rules (some d) roles (set_roles k u role ms) ≡ g_rules (some d) roles ms
unfolding g_rules set_roles in_domain
g_rules-set_roles d k u role roles [] ne = refl
g_rules-set_roles d k u role roles (m ∷ ms) ne =
    ground (arith, g_rules-set_roles d k u role roles ms ne)
