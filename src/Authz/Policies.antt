-- ===== src/Authz/Policies.antt =====
-- common/utils/casbin_adapter.go: the policy that the tables give. Its rows are pairs and triples
-- where the source writes lines of text for Casbin.
use my_go_market.Prelude.{ℕ, Bool, true, Option, none, some, List, [], ◌∷◌, ◌==◌, if◌then◌else◌}
use my_go_market.Prelude.Text.{Text}
use my_go_market.Table.{lookup}
use my_go_market.Iam.Roles.{Permission, Role, Grant, RoleStore, role_key}
use my_go_market.Iam.Groups.{Member}

-- `pRule`
pub record PRule : Type 0 where
  pub role_name : Text
  pub permission_code : Text

-- `gRule`
pub record GRule : Type 0 where
  pub user_id : ℕ
  pub role_name : Text
  pub group_id : ℕ

pub record Policy : Type 0 where
  pub rules : List PRule
  pub links : List GRule

abbrev pub permission_key : Permission → ℕ
permission_key p = p.permission_id

-- A row of the join of role_permissions with roles and permissions, if both are there.
unfoldable pub p_rule : Option Role → Option Permission → List PRule → List PRule
p_rule none p rest = rest
p_rule (some r) none rest = rest
p_rule (some r) (some p) rest = record { role_name = r.name; permission_code = p.code } ∷ rest

unfoldable pub p_rules : List Role → List Permission → List Grant → List PRule
p_rules roles permissions [] = []
p_rules roles permissions (g ∷ grants) =
    p_rule (lookup role_key g.role_id roles) (lookup permission_key g.permission_id permissions)
      (p_rules roles permissions grants)

-- `gm.group_id = ?`, where the filter names a domain.
unfoldable pub in_domain : Option ℕ → Member → Bool
in_domain none m = true
in_domain (some d) m = m.group_id == d

-- A row of the join of group_members with roles, if the role is there.
unfoldable pub g_rule : Option Role → Member → List GRule → List GRule
g_rule none m rest = rest
g_rule (some r) m rest =
    record { user_id = m.user_id; role_name = r.name; group_id = m.group_id } ∷ rest

unfoldable pub g_rules : (domain : Option ℕ) → List Role → List Member → List GRule
g_rules d roles [] = []
g_rules d roles (m ∷ ms) =
    let rest = g_rules d roles ms in
    if in_domain d m then g_rule (lookup role_key m.role_id roles) m rest else rest

-- `LoadFilteredPolicy`
unfoldable pub load_filtered_policy : (domain : Option ℕ) → RoleStore → List Member → Policy
load_filtered_policy d s members = record {
  rules = p_rules s.roles s.permissions s.grants;
  links = g_rules d s.roles members;
}

-- `LoadPolicy`
unfoldable pub load_policy : RoleStore → List Member → Policy
load_policy s members = load_filtered_policy none s members
