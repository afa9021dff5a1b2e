-- ===== src/Table.antt =====
-- A table as the list of its rows, the newest first, with the queries that the repositories make
-- by a numeric key.

pub mod Keyed
use mathlib.Core.Option
use my_go_market.Prelude.{
  ℕ, Bool, Option, none, some, List, [], ◌∷◌, ◌≡◌, ◌≢◌, refl, ◌==◌, leb, if◌then◌else◌, arith, All,
  Bool-cases, inl, inr, true, All-take, zero, suc, take, false, sym, subst,
}

-- `WHERE p`, then `First`
unfoldable pub find_by : {R : Type 0} → (R → Bool) → List R → Option R
find_by p [] = none
find_by p (r ∷ rs) = if p r then some r else find_by p rs

pub find_by-holds :
    {R : Type 0} (p : R → Bool) (rs : List R) {r : R} → find_by p rs ≡ some r → p r ≡ true
unfolding find_by
find_by-holds p [] h = cc
find_by-holds p (x ∷ rs) {r} h = ground (arith, find_by-holds p rs {r = r})

module _ {R : Type 0} (key : R → ℕ) where
  -- `WHERE key = k`, then `First`
  unfoldable pub lookup : ℕ → List R → Option R
  lookup k [] = none
  lookup k (r ∷ rs) = if key r == k then some r else lookup k rs

  -- `UPDATE … WHERE key = k`
  unfoldable pub update : ℕ → (R → R) → List R → List R
  update k f [] = []
  update k f (r ∷ rs) = (if key r == k then f r else r) ∷ update k f rs

  pub lookup-key : (k : ℕ) (rs : List R) {r : R} → lookup k rs ≡ some r → key r ≡ k
  unfolding lookup
  lookup-key k [] h = cc
  lookup-key k (x ∷ rs) {r} h = ground (arith, lookup-key k rs {r = r})

  pub lookup-update_self :
      (k : ℕ) (f : R → R) (rs : List R)
      → ((r : R) → key (f r) ≡ key r)
      → lookup k (update k f rs) ≡ Option.map f (lookup k rs)
  unfolding lookup update
  lookup-update_self k f [] h = refl
  lookup-update_self k f (x ∷ rs) h = ground (arith, h x, lookup-update_self k f rs h)

  pub lookup-update_ne :
      (k j : ℕ) (f : R → R) (rs : List R)
      → ((r : R) → key (f r) ≡ key r)
      → k ≢ j
      → lookup k (update j f rs) ≡ lookup k rs
  unfolding lookup update
  lookup-update_ne k j f [] h ne = refl
  lookup-update_ne k j f (x ∷ rs) h ne = ground (arith, h x, lookup-update_ne k j f rs h ne)

-- `ORDER BY key ASC`, a stable sort
unfoldable pub insert_by : {R : Type 0} → (R → ℕ) → R → List R → List R
insert_by key r [] = r ∷ []
insert_by key r (s ∷ rs) = if leb (key r) (key s) then r ∷ s ∷ rs else s ∷ insert_by key r rs

unfoldable pub sort_by : {R : Type 0} → (R → ℕ) → List R → List R
unfolding insert_by
sort_by key [] = []
sort_by key (r ∷ rs) = insert_by key r (sort_by key rs)

-- `WHERE p`
unfoldable pub where_rows : {R : Type 0} → (R → Bool) → List R → List R
where_rows p [] = []
where_rows p (r ∷ rs) = let rest = where_rows p rs in if p r then r ∷ rest else rest

module _ {R : Type 0} (P : R → Type 0) where
  pub All-update :
      (key : R → ℕ) (k : ℕ) (change : R → R) (rs : List R)
      → ((r : R) → P r → P (change r))
      → All P rs
      → All P (update key k change rs)
  unfolding update
  All-update key k change [] keeps _ = tt
  All-update key k change (r ∷ rs) keeps (p, ps) = elim (Bool-cases (key r == k)) [
    | inl this ↦ rw this (keeps r p, All-update key k change rs keeps ps)
    | inr other ↦ rw other (p, All-update key k change rs keeps ps)
  ]

  pub All-where_rows :
      (p : R → Bool) (rs : List R) → ((r : R) → p r ≡ true → P r) → All P (where_rows p rs)
  unfolding where_rows
  All-where_rows p [] given = tt
  All-where_rows p (r ∷ rs) given = elim (Bool-cases (p r)) [
    | inl yes_it ↦ rw yes_it (given r yes_it, All-where_rows p rs given)
    | inr not_it ↦ rw not_it (All-where_rows p rs given)
  ]

  pub All-where_kept : (p : R → Bool) (rs : List R) → All P rs → All P (where_rows p rs)
  unfolding where_rows
  All-where_kept p [] _ = tt
  All-where_kept p (r ∷ rs) (q, qs) = elim (Bool-cases (p r)) [
    | inl kept ↦ rw kept (q, All-where_kept p rs qs)
    | inr gone ↦ rw gone (All-where_kept p rs qs)
  ]

  All-insert_by : (key : R → ℕ) (r : R) (rs : List R) → P r → All P rs → All P (insert_by key r rs)
  unfolding insert_by
  All-insert_by key r [] p _ = (p, tt)
  All-insert_by key r (s ∷ rs) p (q, qs) = elim (Bool-cases (leb (key r) (key s))) [
    | inl below ↦ rw below (p, (q, qs))
    | inr above ↦ rw above (q, All-insert_by key r rs p qs)
  ]

  pub All-sort_by : (key : R → ℕ) (rs : List R) → All P rs → All P (sort_by key rs)
  unfolding sort_by
  All-sort_by key [] _ = tt
  All-sort_by key (r ∷ rs) (p, ps) = All-insert_by key r (sort_by key rs) p (All-sort_by key rs ps)
