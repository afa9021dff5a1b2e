-- ===== src/Iam/Groups.antt =====
-- services/iam/app/services/group_service.go over services/iam/repository/group_repository.go: groups
-- and their members. `register_group` draws its id from outside. Unlike the source's text ids, ids
-- are numbers.
use my_go_market.Prelude.{
  ℕ, Bool, true, false, not, none, some, List, [], ◌∷◌, ◌==◌, ◌&&◌, if◌then◌else◌,
}
use my_go_market.Prelude.Text.{Text}
use my_go_market.Errors.{
  Result, ok, err, ◌>>=◌, ◌>>◌, fail_if, record_not_found, unique_violation, group_not_found,
  owner_role_fixed, member_not_found, owner_cannot_leave,
}
use my_go_market.Iam.Roles.{elem}
use my_go_market.Table.{find_by, lookup, update, where_rows}

pub record Group : Type 0 where
  pub group_id : ℕ
  pub group_name : Text
  pub owner_id : ℕ
  pub created_at : ℕ

pub record Member : Type 0 where
  pub group_id : ℕ
  pub user_id : ℕ
  pub role_id : ℕ

-- `user_ids` and `role_ids` are the keys of the tables that the columns refer to.
pub record GroupStore : Type 0 where
  pub user_ids : List ℕ
  pub role_ids : List ℕ
  pub groups : List Group
  pub members : List Member

abbrev pub group_key : Group → ℕ
group_key g = g.group_id

-- The repository.

unfoldable pub find_group : (group_id : ℕ) → GroupStore → Result Group
find_group k s = elim (lookup group_key k s.groups) [ none ↦ err record_not_found | some g ↦ ok g ]

-- Every column but the key is written.
abbrev pub overwrite : Group → Group → Group
overwrite g row = record g { group_id = row.group_id }

-- `Save`: an update of the row, or an insert if there is none; the owner is to be a user.
unfoldable pub save : Group → GroupStore → Result GroupStore
save g s =
    if elem g.owner_id s.user_ids
    then elim (lookup group_key g.group_id s.groups) [
      | none ↦ ok (record s { groups = g ∷ s.groups })
      | some _ ↦ ok (record s { groups = update group_key g.group_id (overwrite g) s.groups })
    ]
    else err unique_violation

abbrev pub is_member : (group_id user_id : ℕ) → Member → Bool
is_member k u m = m.group_id == k && m.user_id == u

unfoldable pub get_member : (group_id user_id : ℕ) → GroupStore → Result Member
get_member k u s = elim (find_by (is_member k u) s.members) [
  | none ↦ err record_not_found
  | some m ↦ ok m
]

abbrev pub has_group : (group_id : ℕ) → GroupStore → Bool
has_group k s = elim (lookup group_key k s.groups) [ none ↦ false | some _ ↦ true ]

-- Refused are a second row of the same member, and a group, user or role that is not there.
unfoldable pub add_member : (group_id user_id role_id : ℕ) → GroupStore → Result GroupStore
add_member k u role s = do
  fail_if (not (has_group k s && (elem u s.user_ids && elem role s.role_ids))) unique_violation
  elim (find_by (is_member k u) s.members) [
    | some _ ↦ err unique_violation
    | none ↦
        ok (record s { members = record { group_id = k; user_id = u; role_id = role } ∷ s.members })
  ]

abbrev pub is_other : (group_id user_id : ℕ) → Member → Bool
is_other k u m = not (is_member k u m)

unfoldable pub remove_member : (group_id user_id : ℕ) → GroupStore → GroupStore
unfolding where_rows
remove_member k u s = record s { members = where_rows (is_other k u) s.members }

unfoldable pub set_roles : (group_id user_id role_id : ℕ) → List Member → List Member
set_roles k u role [] = []
set_roles k u role (m ∷ ms) =
    (if is_member k u m then record m { role_id = role } else m) ∷ set_roles k u role ms

-- `UpdateMemberRole`; a role that is not there is refused where there is a row to change.
unfoldable pub update_role : (group_id user_id role_id : ℕ) → GroupStore → Result GroupStore
update_role k u role s = elim (find_by (is_member k u) s.members) [
  | none ↦ ok s
  | some _ ↦
      if elem role s.role_ids
      then ok (record s { members = set_roles k u role s.members })
      else err unique_violation
]

abbrev in_group : (group_id : ℕ) → Member → Bool
in_group k m = m.group_id == k

unfoldable pub find_members_by_group_id : (group_id : ℕ) → GroupStore → List Member
find_members_by_group_id k s = where_rows (in_group k) s.members

abbrev pub not_group : (group_id : ℕ) → Group → Bool
not_group k g = not (g.group_id == k)

abbrev pub not_in_group : (group_id : ℕ) → Member → Bool
not_in_group k m = not (m.group_id == k)

-- `Delete`; the rows of its members go with it, by the foreign key.
unfoldable pub delete : (group_id : ℕ) → GroupStore → GroupStore
delete k s = record s {
  groups = where_rows (not_group k) s.groups;
  members = where_rows (not_in_group k) s.members;
}

-- The service.

-- The role of owners in the seed data.
abbrev pub owner_role : ℕ
owner_role = 2

-- `RegisterGroup`: the group stays where its owner cannot be added, since the two writes share no
-- transaction.
unfoldable pub register_group :
    (group_id now : ℕ) → (name : Text) → (owner_id : ℕ) → GroupStore → Result Group × GroupStore
register_group group_id now name owner_id s =
    let g : Group = record {
      group_id = group_id;
      group_name = name;
      owner_id = owner_id;
      created_at = now;
    } in
    elim (save g s) [
      | err e ↦ (err e, s)
      | ok s1 ↦ elim (add_member group_id owner_id owner_role s1) [
        | err e ↦ (err e, s1)
        | ok s2 ↦ (ok g, s2)
      ]
    ]

unfoldable pub update_group_info :
    (group_id : ℕ) → (new_name : Text) → GroupStore → Result GroupStore
update_group_info k new_name s = do g ← find_group k s; save (record g { group_name = new_name }) s

unfoldable pub invite_member : (group_id user_id role_id : ℕ) → GroupStore → Result GroupStore
invite_member k u role s = add_member k u role s

abbrev pub or_member {ℓ} : {A : Type ℓ} → Result A → Result A
or_member (ok a) = ok a
or_member (err _) = err member_not_found

unfoldable pub update_member_role : (group_id user_id role_id : ℕ) → GroupStore → Result GroupStore
update_member_role k u role s = do
  g ← find_group k s
  fail_if (g.owner_id == u) owner_role_fixed
  _ ← or_member (get_member k u s)
  update_role k u role s

unfoldable pub leave_group : (user_id group_id : ℕ) → GroupStore → Result GroupStore
leave_group u k s = do
  g ← find_group k s
  fail_if (g.owner_id == u) owner_cannot_leave
  ok (remove_member k u s)

unfoldable pub get_group_full_detail : (group_id : ℕ) → GroupStore → Result (Group × List Member)
get_group_full_detail k s = do g ← find_group k s; ok (g, find_members_by_group_id k s)

abbrev pub or_group {ℓ} : {A : Type ℓ} → Result A → Result A
or_group (ok a) = ok a
or_group (err _) = err group_not_found

unfoldable pub dissolve_group : (group_id : ℕ) → GroupStore → Result GroupStore
dissolve_group k s = do _ ← or_group (find_group k s); ok (delete k s)

-- `KickMember`
unfoldable pub kick_member : (group_id user_id : ℕ) → GroupStore → Result GroupStore
kick_member k u s = ok (remove_member k u s)
