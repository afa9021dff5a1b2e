-- ===== src/Iam/RoleLaws.antt =====
-- What replacing the permissions of a role does (role_repository.go, ReplaceRolePermissions).
use my_go_market.Prelude.{
  ℕ, zero, suc, Bool, true, false, not, Option, none, some, List, [], ◌∷◌, ◌++◌, ◌≡◌, refl, ◌==◌,
  ◌&&◌, ◌||◌, ◌⊎◌, inl, inr, if◌then◌else◌, arith, ap, sym, subst, ◌∙◌, Bool-cases, ==_iff, length,
}
use my_go_market.Prelude.Int.{ℤ, pos, negsuc}
use my_go_market.Errors.{
  Error, Result, ok, err, Result-cases, >>=-eq-ok, passed, ok-injective, permission_not_found,
}
use my_go_market.Table.{find_by, lookup}
use my_go_market.Iam.Roles.{
  Permission, Role, Grant, RoleStore, LoadedRole, role_key, elem, is_grant, has_grant, unique_ids,
  count_in, is_superadmin, is_role_manage, check_superadmin, delete_grants, insert_grants,
  or_missing, replace_in_tx, find_role, replace_role_permissions,
}

has_grant-delete_grants :
    (r p k : ℕ) (gs : List Grant)
    → has_grant r p (delete_grants k gs) ≡ (if r == k then false else has_grant r p gs)
unfolding has_grant delete_grants
has_grant-delete_grants r p k [] = ground arith
has_grant-delete_grants r p k (g ∷ gs) = ground (arith, has_grant-delete_grants r p k gs)

has_grant-cons :
    (r p : ℕ) (g : Grant) (gs : List Grant)
    → has_grant r p (g ∷ gs) ≡ (is_grant r p g || has_grant r p gs)
unfolding has_grant
has_grant-cons r p g gs = refl

has_grant-insert_grants :
    (r p k : ℕ) (ps : List ℕ) (gs : List Grant)
    → has_grant r p (insert_grants k ps gs) ≡ (has_grant r p gs || (k == r && elem p ps))
unfolding insert_grants elem
has_grant-insert_grants r p k [] gs = ground arith
has_grant-insert_grants r p k (q ∷ ps) gs = elim (Bool-cases (has_grant k q gs)) [
  | inl there ↦ ground (arith, has_grant-insert_grants r p k ps gs)
  | inr fresh ↦ ground (
    arith,
    has_grant-insert_grants r p k ps (record { role_id = k; permission_id = q } ∷ gs),
    has_grant-cons r p (record { role_id = k; permission_id = q }) gs,
  )
]

-- A request names this id.
unfoldable pub requested : ℕ → List ℤ → Bool
requested p [] = false
requested p (negsuc n ∷ ids) = requested p ids
requested p (pos n ∷ ids) = n == p || requested p ids

elem-append : (p q : ℕ) (ns : List ℕ) → elem p (ns ++ (q ∷ [])) ≡ (elem p ns || q == p)
unfolding elem
elem-append p q [] = ground arith
elem-append p q (n ∷ ns) = ground (arith, elem-append p q ns)

elem-unique_ids :
    (p : ℕ) (ids : List ℤ) (unique : List ℕ) {all : List ℕ}
    → unique_ids unique ids ≡ ok all
    → elem p all ≡ (elem p unique || requested p ids)
unfolding unique_ids requested
elem-unique_ids p [] unique h = ground arith
elem-unique_ids p (negsuc n ∷ ids) unique h = ground arith
elem-unique_ids p (pos zero ∷ ids) unique h = ground arith
elem-unique_ids p (pos (suc n) ∷ ids) unique {all} h = elim (Bool-cases (elem (suc n) unique)) [
  | inl seen ↦ ground (arith, elem-unique_ids p ids unique {all = all}, ==_iff (suc n) p)
  | inr new ↦ ground (
    arith,
    elem-unique_ids p ids (unique ++ (suc n ∷ [])) {all = all},
    elem-append p (suc n) unique,
  )
]

or_missing_lem : (o : Option Role) {r : Role} → or_missing o ≡ ok r → o ≡ some r
or_missing_lem none h = cc
or_missing_lem (some a) h = ap some (ok-injective h)

-- A replacement that went through, step by step.
replace_steps :
    (k : ℕ) (ids : List ℤ) (s : RoleStore) {s' : RoleStore}
    → replace_in_tx k ids s ≡ ok (tt, s')
    → (role : Role) × (unique : List ℕ) × (lookup role_key k s.roles ≡ some role)
      × (unique_ids [] ids ≡ ok unique)
      × (check_superadmin role unique s ≡ ok tt)
      × (s' ≡ record s { grants = insert_grants k unique (delete_grants k s.grants) })
unfolding replace_in_tx
replace_steps k ids s h =
    let (role, found, h1) = >>=-eq-ok (or_missing (lookup role_key k s.roles)) _ h in
    let (unique, named, h2) = >>=-eq-ok (unique_ids [] ids) _ h1 in
    let (_, h3) =
      passed (not (count_in unique s.permissions == length unique)) permission_not_found _ h2 in
    let (_, checked, h4) = >>=-eq-ok (check_superadmin role unique s) _ h3 in
    (
      role,
      unique,
      or_missing_lem (lookup role_key k s.roles) found,
      named,
      checked,
      ap (λ (x : Unit × RoleStore). x.1) (sym (ok-injective h4)),
    )

replaced :
    (k : ℕ) (ids : List ℤ) (s : RoleStore) {s' : RoleStore} (r p : ℕ)
    → replace_in_tx k ids s ≡ ok (tt, s')
    → (has_grant r p s'.grants ≡ (if r == k then requested p ids else has_grant r p s.grants))
      × (s'.roles ≡ s.roles)
      × (s'.permissions ≡ s.permissions)
unfolding elem
replaced k ids s {s'} r p h =
    let (role, unique, found, named, checked, done) = replace_steps k ids s h in
    (
      rw done (
          has_grant-insert_grants r p k unique (delete_grants k s.grants)
          ∙ ground (
            arith,
            has_grant-delete_grants r p k s.grants,
            elem-unique_ids p ids [] {all = unique},
            ==_iff k r,
            ==_iff r k,
          )),
      ap (λ (x : RoleStore). x.roles) done,
      ap (λ (x : RoleStore). x.permissions) done,
    )

-- A replacement left the tables as they were, or went through.
replace_outcome :
    (k : ℕ) (ids : List ℤ) (s : RoleStore)
    → let (r, s') = replace_role_permissions k ids s in
      ((e : Error) × (r ≡ err e) × (s' ≡ s))
      ⊎ ((r ≡ find_role k s') × (replace_in_tx k ids s ≡ ok (tt, s')))
unfolding replace_role_permissions
replace_outcome k ids s = elim (Result-cases (replace_in_tx k ids s)) [
  | inr (e, refused) ↦ inl (e, ground (arith, refused), ground (arith, refused))
  | inl ((u, s'), done) ↦ inr (ground (arith, done), ground (arith, done))
]

-- Refused, a replacement leaves the tables as they were.
pub replace_role_permissions-err :
    (k : ℕ) (ids : List ℤ) (s : RoleStore) {e : Error}
    → (replace_role_permissions k ids s).0 ≡ err e
    → (replace_role_permissions k ids s).1 ≡ s
unfolding find_role
replace_role_permissions-err k ids s {e} h = elim (replace_outcome k ids s) [
  | inl (_, _, same) ↦ same
  | inr (read, done) ↦
      let (role, _, found, _, _, stored) = replace_steps k ids s done in
      absurd (ground (arith, h, read, found, ap (λ (x : RoleStore). x.roles) stored))
]

-- Where replacing the permissions of a role succeeds, that role has exactly the permissions that the
-- request names, every other role has those that it had, the roles and permissions stay, and the
-- answer is the role as it is then read.
pub replace_exact :
    (k : ℕ) (ids : List ℤ) (s : RoleStore) {view : LoadedRole} {s' : RoleStore} (r p : ℕ)
    → replace_role_permissions k ids s ≡ (ok view, s')
    → (has_grant r p s'.grants ≡ (if r == k then requested p ids else has_grant r p s.grants))
      × (s'.roles ≡ s.roles)
      × (s'.permissions ≡ s.permissions)
      × (find_role k s' ≡ ok view)
replace_exact k ids s {view} {s'} r p h = elim outcome [
  | inl (e, refused, _) ↦ absurd (cc)
  | inr (read, done) ↦
      let (exact, roles, permissions) = replaced k ids s r p done in
      (exact, roles, permissions, sym read)
]
  where
    outcome :
        ((e : Error) × (ok view ≡ err e) × (s' ≡ s))
        ⊎ ((ok view ≡ find_role k s') × (replace_in_tx k ids s ≡ ok (tt, s')))
    outcome =
        subst
          (λ (q : Result LoadedRole × RoleStore).
            ((e : Error) × (q.0 ≡ err e) × (q.1 ≡ s))
            ⊎ ((q.0 ≡ find_role k q.1) × (replace_in_tx k ids s ≡ ok (tt, q.1))))
          h (replace_outcome k ids s)

-- One role's grants, seen from a row that names superadmin.
record Keeps (k : ℕ) (role : Role) (manage : Permission) (s : RoleStore) : Type 0 where
  pub role_row : lookup role_key k s.roles ≡ some role
  pub manage_row : find_by is_role_manage s.permissions ≡ some manage
  pub granted : has_grant k manage.permission_id s.grants ≡ true

checked_elem :
    (role : Role) (manage : Permission) (unique : List ℕ) (s : RoleStore)
    → is_superadmin role ≡ true
    → find_by is_role_manage s.permissions ≡ some manage
    → check_superadmin role unique s ≡ ok tt
    → elem manage.permission_id unique ≡ true
unfolding check_superadmin
checked_elem role manage unique s super found h = ground arith

replace-Keeps :
    (j k : ℕ) (ids : List ℤ) (role : Role) (manage : Permission) (s : RoleStore)
    → is_superadmin role ≡ true
    → Keeps k role manage s
    → Keeps k role manage (replace_role_permissions j ids s).1
unfolding elem
replace-Keeps j k ids role manage s super keeps = elim (replace_outcome j ids s) [
  | inl (e, refused, same) ↦ rw same keeps
  | inr (read, done) ↦
      let (target, unique, found, named, checked, made) = replace_steps j ids s done in
      let (exact, roles, permissions) = replaced j ids s k manage.permission_id done in
      record {
        role_row = ap (λ rows. lookup role_key k rows) roles ∙ keeps.role_row;
        manage_row = ap (λ rows. find_by is_role_manage rows) permissions ∙ keeps.manage_row;
        granted = exact ∙ elim (Bool-cases (k == j)) [
          | inr other ↦ ground (arith, keeps.granted)
          | inl same ↦
              let e : k ≡ j = (==_iff k j).0 same in
              let it : target ≡ role =
                some-injective
                  (sym found ∙ ap (λ i. lookup role_key i s.roles) (sym e) ∙ keeps.role_row) in
              ground (
                arith,
                elem-unique_ids manage.permission_id ids [] {all = unique},
                checked_elem role manage unique s super keeps.manage_row
                    (subst (λ x. check_superadmin x unique s ≡ ok tt) it checked),
              )
        ];
      }
]
  where
    some-injective : {a b : Role} → some a ≡ some b → a ≡ b
    some-injective h = cc

-- Replacements of the permissions of roles, one after another, whatever each returns.
unfoldable pub replace_all : List (ℕ × List ℤ) → RoleStore → RoleStore
replace_all [] s = s
replace_all ((k, ids) ∷ rs) s = replace_all rs (replace_role_permissions k ids s).1

replace_all-Keeps :
    (rs : List (ℕ × List ℤ)) (k : ℕ) (role : Role) (manage : Permission) (s : RoleStore)
    → is_superadmin role ≡ true
    → Keeps k role manage s
    → Keeps k role manage (replace_all rs s)
unfolding replace_all
replace_all-Keeps [] k role manage s super keeps = keeps
replace_all-Keeps ((j, ids) ∷ rs) k role manage s super keeps =
    replace_all-Keeps rs k role manage (replace_role_permissions j ids s).1 super
      (replace-Keeps j k ids role manage s super keeps)

-- A role named superadmin that has the permission role:manage still has it after any sequence of
-- replacements of roles' permissions, for any roles and any ids.
pub superadmin_keeps_manage :
    (rs : List (ℕ × List ℤ)) (k : ℕ) (role : Role) (manage : Permission) (s : RoleStore)
    → is_superadmin role ≡ true
    → lookup role_key k s.roles ≡ some role
    → find_by is_role_manage s.permissions ≡ some manage
    → has_grant k manage.permission_id s.grants ≡ true
    → has_grant k manage.permission_id (replace_all rs s).grants ≡ true
superadmin_keeps_manage rs k role manage s super found named granted =
    (replace_all-Keeps rs k role manage s super
      (record { role_row = found; manage_row = named; granted = granted })).granted
