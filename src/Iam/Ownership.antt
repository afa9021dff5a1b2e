-- ===== src/Iam/Ownership.antt =====
-- The owner of a registered group among its members (group_service.go).
use my_go_market.Prelude.{
  false, ◌==◌, ◌&&◌, ℕ, some, List, [], ◌∷◌, ◌≡◌, ◌≢◌, refl, inl, inr, arith, ap, subst, ◌∙◌,
  Option-cases, ==_iff, All,
}
use my_go_market.Prelude.Text.{Text}
use my_go_market.Errors.{Result, ok, err, Result-cases}
use my_go_market.Table.{find_by, lookup, lookup-update_self}
use my_go_market.Iam.Groups.{
  Group, GroupStore, group_key, overwrite, save, is_member, add_member, owner_role, register_group,
  update_group_info, invite_member, update_member_role, leave_group, kick_member, dissolve_group,
}
use my_go_market.Iam.Members.{
  HasOwner, save-HasOwner, add_member-HasOwner, update_member_role-HasOwner, leave_group-HasOwner,
  kick_member-HasOwner, dissolve_group-HasOwner, update_group_info-HasOwner,
}

register_group-HasOwner :
    (j now : ℕ) (name : Text) (o k owner role : ℕ) (s : GroupStore)
    → j ≢ k
    → HasOwner k owner role s
    → HasOwner k owner role (register_group j now name o s).1
unfolding register_group
register_group-HasOwner j now name o k owner role s fresh h =
    let g : Group = record { group_id = j; group_name = name; owner_id = o; created_at = now } in
    elim (Result-cases (save g s)) [
      | inr (e, refused) ↦ rw (refused, register_group) h
      | inl (s1, saved) ↦
          let h1 = save-HasOwner g k owner role s (inl fresh) h saved in
          elim (Result-cases (add_member j o owner_role s1)) [
            | inr (e, refused) ↦ rw (saved, refused, register_group) h1
            | inl (s2, added) ↦
                rw (saved, added, register_group)
                  (add_member-HasOwner j o owner_role k owner role s1 h1 added)
          ]
    ]

save-row :
    (g : Group) (s : GroupStore) {s' : GroupStore}
    → save g s ≡ ok s'
    → (row : Group) × (lookup group_key g.group_id s'.groups ≡ some row)
      × (row.owner_id ≡ g.owner_id)
unfolding save lookup
save-row g s h = elim (Option-cases (lookup group_key g.group_id s.groups)) [
  | inl missing ↦ (g, ground (arith, ==_iff g.group_id g.group_id), refl)
  | inr (r, found) ↦ (
    overwrite g r,
    ground (arith, lookup-update_self group_key g.group_id (overwrite g) s.groups (λ x. refl)),
    refl,
  )
]

add_member-row :
    (j u r : ℕ) (s : GroupStore) {s' : GroupStore}
    → add_member j u r s ≡ ok s'
    → (s'.groups ≡ s.groups)
      × (find_by (is_member j u) s'.members
          ≡ some (record { group_id = j; user_id = u; role_id = r }))
unfolding add_member find_by
add_member-row j u r s h = (ground arith, ground (arith, ==_iff j j, ==_iff u u))

register_group-makes :
    (k now : ℕ) (name : Text) (owner : ℕ) (s : GroupStore) {g : Group} {s' : GroupStore}
    → register_group k now name owner s ≡ (ok g, s')
    → HasOwner k owner owner_role s'
unfolding register_group
register_group-makes k now name owner s {g} {s'} done =
    let new : Group = record {
      group_id = k;
      group_name = name;
      owner_id = owner;
      created_at = now;
    } in
    elim (Result-cases (save new s)) [
      | inr (e, refused) ↦ ground arith
      | inl (s1, saved) ↦ elim (Result-cases (add_member k owner owner_role s1)) [
        | inr (e, refused) ↦ ground arith
        | inl (s2, added) ↦
            let e : s2 ≡ s' = ground arith in
            let (row, found, owned) = save-row new s saved in
            let (same, member) = add_member-row k owner owner_role s1 added in
            subst (HasOwner k owner owner_role) e (record {
              group = row;
              member = record { group_id = k; user_id = owner; role_id = owner_role };
              group_row = ap (lookup group_key k) same ∙ found;
              owned = owned;
              member_row = member;
              in_role = refl;
            })
      ]
    ]

-- The calls of the service that change groups.
pub data Request : Type 0 where
  to_register : (group_id now : ℕ) → (name : Text) → (owner_id : ℕ) → Request
  to_rename : (group_id : ℕ) → (name : Text) → Request
  to_invite : (group_id user_id role_id : ℕ) → Request
  to_change_role : (group_id user_id role_id : ℕ) → Request
  to_leave : (user_id group_id : ℕ) → Request
  to_kick : (group_id user_id : ℕ) → Request
  to_dissolve : (group_id : ℕ) → Request

-- A call that fails changes nothing.
abbrev kept_or : GroupStore → Result GroupStore → GroupStore
kept_or s (err e) = s
kept_or s (ok s') = s'

unfoldable pub serve : Request → GroupStore → GroupStore
serve (to_register j now name o) s = (register_group j now name o s).1
serve (to_rename j name) s = kept_or s (update_group_info j name s)
serve (to_invite j u r) s = kept_or s (invite_member j u r s)
serve (to_change_role j u r) s = kept_or s (update_member_role j u r s)
serve (to_leave u j) s = kept_or s (leave_group u j s)
serve (to_kick j u) s = kept_or s (kick_member j u s)
serve (to_dissolve j) s = kept_or s (dissolve_group j s)

unfoldable pub serve_all : List Request → GroupStore → GroupStore
unfolding serve
serve_all [] s = s
serve_all (r ∷ rs) s = serve_all rs (serve r s)

-- The request does not register a group under this id, dissolve this group or kick its owner from it.
abbrev pub Spares : (group_id owner : ℕ) → Request → Type 0
Spares k owner (to_register j now name o) = j ≢ k
Spares k owner (to_kick j u) = ((j == k) && (u == owner)) ≡ false
Spares k owner (to_dissolve j) = j ≢ k
Spares k owner _ = Unit

kept_or-HasOwner :
    (k owner role : ℕ) (s : GroupStore) (r : Result GroupStore)
    → HasOwner k owner role s
    → ((s' : GroupStore) → r ≡ ok s' → HasOwner k owner role s')
    → HasOwner k owner role (kept_or s r)
kept_or-HasOwner k owner role s (err e) h done = h
kept_or-HasOwner k owner role s (ok s') h done = done s' refl

serve-HasOwner :
    (r : Request) (k owner role : ℕ) (s : GroupStore)
    → Spares k owner r
    → HasOwner k owner role s
    → HasOwner k owner role (serve r s)
unfolding serve invite_member
serve-HasOwner (to_register j now name o) k owner role s fresh h =
    register_group-HasOwner j now name o k owner role s fresh h
serve-HasOwner (to_rename j name) k owner role s fresh h =
    kept_or-HasOwner k owner role s (update_group_info j name s) h
      (λ s' done. update_group_info-HasOwner j name k owner role s h done)
serve-HasOwner (to_invite j u r) k owner role s fresh h =
    kept_or-HasOwner k owner role s (add_member j u r s) h
      (λ s' done. add_member-HasOwner j u r k owner role s h done)
serve-HasOwner (to_change_role j u r) k owner role s fresh h =
    kept_or-HasOwner k owner role s (update_member_role j u r s) h
      (λ s' done. update_member_role-HasOwner j u r k owner role s h done)
serve-HasOwner (to_leave u j) k owner role s fresh h =
    kept_or-HasOwner k owner role s (leave_group u j s) h
      (λ s' done. leave_group-HasOwner j u k owner role s h done)
serve-HasOwner (to_kick j u) k owner role s apart h =
    kept_or-HasOwner k owner role s (kick_member j u s) h
      (λ s' done. kick_member-HasOwner j u k owner role s apart h done)
serve-HasOwner (to_dissolve j) k owner role s apart h =
    kept_or-HasOwner k owner role s (dissolve_group j s) h
      (λ s' done. dissolve_group-HasOwner j k owner role s apart h done)

serve_all-HasOwner :
    (rs : List Request) (k owner role : ℕ) (s : GroupStore)
    → All (Spares k owner) rs
    → HasOwner k owner role s
    → HasOwner k owner role (serve_all rs s)
unfolding serve_all
serve_all-HasOwner [] k owner role s fresh h = h
serve_all-HasOwner (r ∷ rs) k owner role s (f, fresh) h =
    serve_all-HasOwner rs k owner role (serve r s) fresh (serve-HasOwner r k owner role s f h)

-- A group that is registered without an error has its owner as a member in the role of owners, and
-- keeps that owner, as a member in that role, through any calls of the service that do not register a
-- group under this id, dissolve this group or kick this owner from it: none of renaming, inviting,
-- changing roles, leaving, and kicking others or from other groups takes the owner out.
pub registered_keeps_owner :
    (k now : ℕ) (name : Text) (owner : ℕ) (s : GroupStore) (rs : List Request) {g : Group}
    {s' : GroupStore}
    → register_group k now name owner s ≡ (ok g, s')
    → All (Spares k owner) rs
    → HasOwner k owner owner_role (serve_all rs s')
registered_keeps_owner k now name owner s rs done fresh =
    serve_all-HasOwner rs k owner owner_role _ fresh (register_group-makes k now name owner s done)
