-- ===== src/Iam/Roles.antt =====
-- services/iam/repository/role_repository.go and services/iam/domain/rabc.go: roles, permissions and
-- the table that grants the ones to the others. Ids of rows are positive; those of a request are
-- signed.
use my_go_market.Prelude.{
  ℕ, zero, suc, ◌+◌, Bool, false, not, Option, none, some, List, [], ◌∷◌, ◌++◌, ◌==◌, ◌&&◌, ◌||◌,
  if◌then◌else◌, length,
}
use my_go_market.Prelude.Int.{ℤ, pos, negsuc}
use my_go_market.Prelude.Text.{Text, codes, text_eq}
use my_go_market.Errors.{
  Result, ok, err, ◌>>=◌, ◌>>◌, fail_if, transaction, record_not_found, invalid_permission_id,
  permission_not_found, superadmin_must_keep,
}
use my_go_market.Table.{find_by, lookup}

pub record Permission : Type 0 where
  pub permission_id : ℕ
  pub code : Text

-- A row of roles, without the permissions that are loaded beside it.
pub record Role : Type 0 where
  pub role_id : ℕ
  pub name : Text

-- A row of role_permissions.
pub record Grant : Type 0 where
  pub role_id : ℕ
  pub permission_id : ℕ

pub record RoleStore : Type 0 where
  pub roles : List Role
  pub permissions : List Permission
  pub grants : List Grant

abbrev pub role_key : Role → ℕ
role_key r = r.role_id

unfoldable pub elem : ℕ → List ℕ → Bool
elem k [] = false
elem k (n ∷ ns) = n == k || elem k ns

abbrev pub is_grant : (role_id permission_id : ℕ) → Grant → Bool
is_grant r p g = g.role_id == r && g.permission_id == p

unfoldable pub has_grant : (role_id permission_id : ℕ) → List Grant → Bool
has_grant r p [] = false
has_grant r p (g ∷ gs) = is_grant r p g || has_grant r p gs

-- The permissions that are granted to a role, by the join.
unfoldable pub list_permissions_by_role_id :
    (role_id : ℕ) → List Grant → List Permission → List Permission
list_permissions_by_role_id r gs [] = []
list_permissions_by_role_id r gs (p ∷ ps) =
    let rest = list_permissions_by_role_id r gs ps in
    if has_grant r p.permission_id gs then p ∷ rest else rest

-- A role with its permissions.
pub record LoadedRole : Type 0 where
  pub role : Role
  pub permissions : List Permission

-- `HasPermission`
unfoldable pub has_permission : (code : Text) → List Permission → Bool
has_permission code [] = false
has_permission code (p ∷ ps) = text_eq p.code code || has_permission code ps

abbrev loaded : Option Role → RoleStore → Result LoadedRole
loaded none s = err record_not_found
loaded (some r) s = ok (record {
  role = r;
  permissions = list_permissions_by_role_id r.role_id s.grants s.permissions;
})

-- `FindByID`
unfoldable pub find_role : (role_id : ℕ) → RoleStore → Result LoadedRole
find_role k s = loaded (lookup role_key k s.roles) s

abbrev has_name : Text → Role → Bool
has_name name r = text_eq r.name name

unfoldable pub find_by_name : (name : Text) → RoleStore → Result LoadedRole
find_by_name name s = loaded (find_by (has_name name) s.roles) s

-- The ids of a request without repetition, in their first order; `unique` is also the set `seen`.
unfoldable pub unique_ids : (unique : List ℕ) → (permission_ids : List ℤ) → Result (List ℕ)
unique_ids unique [] = ok unique
unique_ids unique (negsuc n ∷ ids) = err invalid_permission_id
unique_ids unique (pos zero ∷ ids) = err invalid_permission_id
unique_ids unique (pos (suc n) ∷ ids) =
    unique_ids (if elem (suc n) unique then unique else unique ++ (suc n ∷ [])) ids

-- `SELECT COUNT(*) … WHERE permission_id IN ids`
unfoldable pub count_in : List ℕ → List Permission → ℕ
count_in ids [] = 0
count_in ids (p ∷ ps) = (if elem p.permission_id ids then 1 else 0) + count_in ids ps

abbrev pub is_superadmin : Role → Bool
is_superadmin r = text_eq r.name (codes "superadmin")

abbrev pub is_role_manage : Permission → Bool
is_role_manage p = text_eq p.code (codes "role:manage")

-- The superadmin role keeps the permission to manage roles.
unfoldable pub check_superadmin : Role → List ℕ → RoleStore → Result (Unit {0})
check_superadmin role unique s =
    if is_superadmin role
    then elim (find_by is_role_manage s.permissions) [
      | none ↦ err record_not_found
      | some p ↦ fail_if (not (elem p.permission_id unique)) superadmin_must_keep
    ]
    else ok tt

-- `DELETE … WHERE role_id = r`
unfoldable pub delete_grants : (role_id : ℕ) → List Grant → List Grant
delete_grants r [] = []
delete_grants r (g ∷ gs) =
    let rest = delete_grants r gs in if g.role_id == r then rest else g ∷ rest

-- The loop of inserts, each with `ON CONFLICT DO NOTHING`.
unfoldable pub insert_grants : (role_id : ℕ) → List ℕ → List Grant → List Grant
insert_grants r [] gs = gs
insert_grants r (p ∷ ps) gs =
    insert_grants r ps
      (if has_grant r p gs then gs else record { role_id = r; permission_id = p } ∷ gs)

abbrev pub or_missing {ℓ} : {A : Type ℓ} → Option A → Result A
or_missing none = err record_not_found
or_missing (some a) = ok a

unfoldable pub replace_in_tx :
    (role_id : ℕ) → (permission_ids : List ℤ) → RoleStore → Result (Unit {0} × RoleStore)
replace_in_tx k permission_ids s = do
  role ← or_missing (lookup role_key k s.roles)
  unique ← unique_ids [] permission_ids
  fail_if (not (count_in unique s.permissions == length unique)) permission_not_found
  check_superadmin role unique s
  ok (tt, record s { grants = insert_grants k unique (delete_grants k s.grants) })

-- `ReplaceRolePermissions`
unfoldable pub replace_role_permissions :
    (role_id : ℕ) → (permission_ids : List ℤ) → RoleStore → Result LoadedRole × RoleStore
replace_role_permissions k permission_ids s =
    let (r, s') = transaction (replace_in_tx k permission_ids) s in
    elim r [ err e ↦ (err e, s') | ok _ ↦ (find_role k s', s') ]
