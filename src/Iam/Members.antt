-- ===== src/Iam/Members.antt =====
-- The owner of a group among its members, through each operation (group_service.go).
use my_go_market.Prelude.{
  ℕ, false, some, List, [], ◌∷◌, ◌≡◌, ◌≢◌, refl, ◌==◌, ◌&&◌, ◌⊎◌, inl, inr, arith, subst, ◌∙◌,
  Bool-cases, ==_iff,
}
use my_go_market.Prelude.Text.{Text}
use my_go_market.Errors.{ok, >>=-eq-ok, passed, ok-injective, owner_role_fixed, owner_cannot_leave}
use my_go_market.Table.{
  find_by, lookup, where_rows, lookup-update_self, lookup-update_ne, lookup-key,
}
use my_go_market.Iam.Groups.{
  Group, Member, GroupStore, group_key, find_group, overwrite, save, is_member, get_member,
  add_member, is_other, remove_member, set_roles, update_role, update_group_info, or_member,
  update_member_role, leave_group, kick_member, dissolve_group, delete, not_group, not_in_group,
  or_group,
}

-- The row of another member is found where it was.
find_by-set_roles :
    (k o j u role : ℕ) (ms : List Member)
    → ((j == k) && (u == o)) ≡ false
    → find_by (is_member k o) (set_roles j u role ms) ≡ find_by (is_member k o) ms
unfolding find_by set_roles
find_by-set_roles k o j u role [] apart = refl
find_by-set_roles k o j u role (m ∷ ms) apart =
    ground (arith, find_by-set_roles k o j u role ms apart)

find_by-remove :
    (k o j u : ℕ) (ms : List Member)
    → ((j == k) && (u == o)) ≡ false
    → find_by (is_member k o) (where_rows (is_other j u) ms) ≡ find_by (is_member k o) ms
unfolding find_by where_rows
find_by-remove k o j u [] apart = refl
find_by-remove k o j u (m ∷ ms) apart = ground (arith, find_by-remove k o j u ms apart)

-- The group is there, and its owner is a member in this role.
pub record HasOwner (k owner role : ℕ) (s : GroupStore) : Type 0 where
  pub group : Group
  pub member : Member
  pub group_row : lookup group_key k s.groups ≡ some group
  pub owned : group.owner_id ≡ owner
  pub member_row : find_by (is_member k owner) s.members ≡ some member
  pub in_role : member.role_id ≡ role

pub save-HasOwner :
    (g : Group) (k owner role : ℕ) (s : GroupStore) {s' : GroupStore}
    → (g.group_id ≢ k) ⊎ (g.owner_id ≡ owner)
    → HasOwner k owner role s
    → save g s ≡ ok s'
    → HasOwner k owner role s'
unfolding save lookup
save-HasOwner g k owner role s {s'} same h saved = elim (Bool-cases (g.group_id == k)) [
  | inl here ↦
      let e : g.group_id ≡ k = (==_iff g.group_id k).0 here in
      record {
        group = overwrite g h.group;
        member = h.member;
        group_row = ground (
          arith,
          h.group_row,
          e,
          lookup-update_self group_key k (overwrite g) s.groups (λ r. refl),
        );
        owned = ground (arith, e);
        member_row = ground (arith, h.member_row);
        in_role = h.in_role;
      }
  | inr apart ↦ record {
    group = h.group;
    member = h.member;
    group_row = ground (
      arith,
      h.group_row,
      lookup-update_ne group_key k g.group_id (overwrite g) s.groups (λ r. refl),
    );
    owned = h.owned;
    member_row = ground (arith, h.member_row);
    in_role = h.in_role;
  }
]

pub add_member-HasOwner :
    (j u r k owner role : ℕ) (s : GroupStore) {s' : GroupStore}
    → HasOwner k owner role s
    → add_member j u r s ≡ ok s'
    → HasOwner k owner role s'
unfolding add_member find_by
add_member-HasOwner j u r k owner role s {s'} h added = record {
  group = h.group;
  member = h.member;
  group_row = ground (arith, h.group_row);
  owned = h.owned;
  member_row = ground (arith, h.member_row);
  in_role = h.in_role;
}

find_group_lem :
    (k : ℕ) (s : GroupStore) {g : Group}
    → find_group k s ≡ ok g
    → lookup group_key k s.groups ≡ some g
unfolding find_group
find_group_lem k s h = ground arith

-- A change that names another member, or the owner of another group.
pub update_member_role-HasOwner :
    (j u r k owner role : ℕ) (s : GroupStore) {s' : GroupStore}
    → HasOwner k owner role s
    → update_member_role j u r s ≡ ok s'
    → HasOwner k owner role s'
unfolding update_member_role update_role
update_member_role-HasOwner j u r k owner role s {s'} h done =
    let (g, found, h1) = >>=-eq-ok (find_group j s) _ done in
    let (fixed, h2) = passed (g.owner_id == u) owner_role_fixed _ h1 in
    let (m, there, h3) = >>=-eq-ok (or_member (get_member j u s)) _ h2 in
    record {
      group = h.group;
      member = h.member;
      group_row = ground (arith, h.group_row);
      owned = h.owned;
      member_row = ground (
        arith,
        h.member_row,
        find_by-set_roles k owner j u r s.members (apart g (find_group_lem j s found) fixed),
      );
      in_role = h.in_role;
    }
  where
    apart :
        (g : Group)
        → lookup group_key j s.groups ≡ some g
        → (g.owner_id == u) ≡ false
        → ((j == k) && (u == owner)) ≡ false
    apart g found fixed = ground (arith, h.group_row, h.owned, ==_iff j k, ==_iff u owner)

pub leave_group-HasOwner :
    (j u k owner role : ℕ) (s : GroupStore) {s' : GroupStore}
    → HasOwner k owner role s
    → leave_group u j s ≡ ok s'
    → HasOwner k owner role s'
unfolding leave_group remove_member
leave_group-HasOwner j u k owner role s {s'} h done =
    let (g, found, h1) = >>=-eq-ok (find_group j s) _ done in
    let (stays, h2) = passed (g.owner_id == u) owner_cannot_leave _ h1 in
    subst (HasOwner k owner role) (ok-injective h2) (record {
      group = h.group;
      member = h.member;
      group_row = h.group_row;
      owned = h.owned;
      member_row =
          find_by-remove k owner j u s.members (apart g (find_group_lem j s found) stays)
          ∙ h.member_row;
      in_role = h.in_role;
    })
  where
    apart :
        (g : Group)
        → lookup group_key j s.groups ≡ some g
        → (g.owner_id == u) ≡ false
        → ((j == k) && (u == owner)) ≡ false
    apart g found stays = ground (arith, h.group_row, h.owned, ==_iff j k, ==_iff u owner)

pub update_group_info-HasOwner :
    (j : ℕ) (name : Text) (k owner role : ℕ) (s : GroupStore) {s' : GroupStore}
    → HasOwner k owner role s
    → update_group_info j name s ≡ ok s'
    → HasOwner k owner role s'
unfolding update_group_info
update_group_info-HasOwner j name k owner role s h done =
    let (g, found, h1) = >>=-eq-ok (find_group j s) _ done in
    save-HasOwner (record g { group_name = name }) k owner role s
      (kept g (find_group_lem j s found)) h h1
  where
    kept :
        (g : Group) → lookup group_key j s.groups ≡ some g → (g.group_id ≢ k) ⊎ (g.owner_id ≡ owner)
    kept g found = elim (Bool-cases (g.group_id == k)) [
      | inr apart ↦ inl (λ e. ground (arith, apart, ==_iff g.group_id k))
      | inl here ↦ inr (
          ground (
            arith,
            h.group_row,
            h.owned,
            found,
            (==_iff g.group_id k).0 here,
            lookup-key group_key j s.groups {r = g} found,
          ))
    ]

-- A removal of another member, or from another group.
pub kick_member-HasOwner :
    (j u k owner role : ℕ) (s : GroupStore) {s' : GroupStore}
    → ((j == k) && (u == owner)) ≡ false
    → HasOwner k owner role s
    → kick_member j u s ≡ ok s'
    → HasOwner k owner role s'
unfolding kick_member remove_member
kick_member-HasOwner j u k owner role s apart h done =
    subst (HasOwner k owner role) (ok-injective done) (record {
      group = h.group;
      member = h.member;
      group_row = h.group_row;
      owned = h.owned;
      member_row = find_by-remove k owner j u s.members apart ∙ h.member_row;
      in_role = h.in_role;
    })

lookup-dissolved :
    (j k : ℕ) (gs : List Group)
    → j ≢ k
    → lookup group_key k (where_rows (not_group j) gs) ≡ lookup group_key k gs
unfolding lookup where_rows
lookup-dissolved j k [] apart = refl
lookup-dissolved j k (g ∷ gs) apart =
    ground (arith, lookup-dissolved j k gs apart, ==_iff g.group_id k, ==_iff g.group_id j)

find_by-dissolved :
    (j k o : ℕ) (ms : List Member)
    → j ≢ k
    → find_by (is_member k o) (where_rows (not_in_group j) ms) ≡ find_by (is_member k o) ms
unfolding find_by where_rows
find_by-dissolved j k o [] apart = refl
find_by-dissolved j k o (m ∷ ms) apart =
    ground (arith, find_by-dissolved j k o ms apart, ==_iff m.group_id k, ==_iff m.group_id j)

-- The end of another group.
pub dissolve_group-HasOwner :
    (j k owner role : ℕ) (s : GroupStore) {s' : GroupStore}
    → j ≢ k
    → HasOwner k owner role s
    → dissolve_group j s ≡ ok s'
    → HasOwner k owner role s'
unfolding dissolve_group delete
dissolve_group-HasOwner j k owner role s apart h done =
    let (_, found, h1) = >>=-eq-ok (or_group (find_group j s)) _ done in
    subst (HasOwner k owner role) (ok-injective h1) (record {
      group = h.group;
      member = h.member;
      group_row = lookup-dissolved j k s.groups apart ∙ h.group_row;
      owned = h.owned;
      member_row = find_by-dissolved j k owner s.members apart ∙ h.member_row;
      in_role = h.in_role;
    })
