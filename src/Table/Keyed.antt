-- ===== src/Table/Keyed.antt =====
-- Tables whose rows differ in their keys, as a primary key has it: what the queries keep of that, and
-- what they find.
use my_go_market.Prelude.{
  ℕ, Bool, Option, none, some, List, [], ◌∷◌, ◌≡◌, refl, ◌==◌, leb, if◌then◌else◌, arith, All,
  Bool-cases, inl, inr, true, All-take, zero, suc, take, false, sym, subst, ==_iff, ◌∙◌, ap, length,
}
use my_go_market.Table.{
  lookup, update, where_rows, insert_by, sort_by, All-where_kept, All-insert_by, All-sort_by,
}

length-insert_by :
    {R : Type 0} (by : R → ℕ) (r : R) (rs : List R) → length (insert_by by r rs) ≡ suc (length rs)
unfolding insert_by
length-insert_by by r [] = refl
length-insert_by by r (s ∷ rs) = ground (arith, length-insert_by by r rs)

pub length-sort_by : {R : Type 0} (by : R → ℕ) (rs : List R) → length (sort_by by rs) ≡ length rs
unfolding sort_by
length-sort_by by [] = refl
length-sort_by by (r ∷ rs) = length-insert_by by r (sort_by by rs) ∙ ap suc (length-sort_by by rs)

-- Rows of pairwise different keys, as a primary key has it, and the queries that leave them so.
module _ {R : Type 0} (key : R → ℕ) where
  abbrev pub Differs : R → R → Type 0
  Differs r s = (key s == key r) ≡ false

  abbrev pub AreKeyed : List R → Type 0
  AreKeyed [] = Unit
  AreKeyed (r ∷ rs) = All (Differs r) rs × AreKeyed rs

  pub where_rows-AreKeyed : (p : R → Bool) (rs : List R) → AreKeyed rs → AreKeyed (where_rows p rs)
  unfolding where_rows
  where_rows-AreKeyed p [] _ = tt
  where_rows-AreKeyed p (r ∷ rs) (q, qs) = elim (Bool-cases (p r)) [
    | inl kept ↦ rw kept (All-where_kept (Differs r) p rs q, where_rows-AreKeyed p rs qs)
    | inr gone ↦ rw gone (where_rows-AreKeyed p rs qs)
  ]

  pub take-AreKeyed : (n : ℕ) (rs : List R) → AreKeyed rs → AreKeyed (take n rs)
  take-AreKeyed zero rs _ = tt
  take-AreKeyed (suc n) [] _ = tt
  take-AreKeyed (suc n) (r ∷ rs) (q, qs) = (All-take (Differs r) n rs q, take-AreKeyed n rs qs)

  Differs-sym : (r s : R) → Differs r s → Differs s r
  Differs-sym r s h = ground (arith, h)

  insert_by-AreKeyed :
      (by : R → ℕ) (r : R) (rs : List R)
      → All (Differs r) rs
      → AreKeyed rs
      → AreKeyed (insert_by by r rs)
  unfolding insert_by
  insert_by-AreKeyed by r [] _ _ = (tt, tt)
  insert_by-AreKeyed by r (s ∷ rs) (d, ds) (q, qs) = elim (Bool-cases (leb (by r) (by s))) [
    | inl below ↦ rw below ((d, ds), (q, qs))
    | inr above ↦
        rw above (
          All-insert_by (Differs s) by r rs (Differs-sym r s d) q,
          insert_by-AreKeyed by r rs ds qs,
        )
  ]

  pub sort_by-AreKeyed : (by : R → ℕ) (rs : List R) → AreKeyed rs → AreKeyed (sort_by by rs)
  unfolding sort_by
  sort_by-AreKeyed by [] _ = tt
  sort_by-AreKeyed by (r ∷ rs) (q, qs) =
      insert_by-AreKeyed by r (sort_by by rs) (All-sort_by (Differs r) by rs q)
        (sort_by-AreKeyed by rs qs)

  All-update_key :
      (r : R) (k : ℕ) (f : R → R) (rs : List R)
      → ((s : R) → key (f s) ≡ key s)
      → All (Differs r) rs
      → All (Differs r) (update key k f rs)
  unfolding update
  All-update_key r k f [] same _ = tt
  All-update_key r k f (s ∷ rs) same (d, ds) = elim (Bool-cases (key s == k)) [
    | inl this ↦ rw this (ground (arith, same s, d), All-update_key r k f rs same ds)
    | inr other ↦ rw other (d, All-update_key r k f rs same ds)
  ]

  pub update-AreKeyed :
      (k : ℕ) (f : R → R) (rs : List R)
      → ((s : R) → key (f s) ≡ key s)
      → AreKeyed rs
      → AreKeyed (update key k f rs)
  unfolding update
  update-AreKeyed k f [] same _ = tt
  update-AreKeyed k f (r ∷ rs) same (d, ds) =
      let rest = All-update_key r k f rs same d in
      elim (Bool-cases (key r == k)) [
        | inl this ↦ rw this (
          subst (λ (j : ℕ). All (λ (s : R). (key s == j) ≡ false) (update key k f rs))
              (sym (same r)) rest,
          update-AreKeyed k f rs same ds,
        )
        | inr other ↦ rw other (rest, update-AreKeyed k f rs same ds)
      ]

  pub lookup-none :
      (k : ℕ) (rs : List R) → lookup key k rs ≡ none → All (λ (s : R). (key s == k) ≡ false) rs
  unfolding lookup
  lookup-none k [] h = tt
  lookup-none k (r ∷ rs) h = elim (Bool-cases (key r == k)) [
    | inl this ↦ absurd (ground (arith, h, this))
    | inr other ↦ (other, lookup-none k rs (ground (arith, h, other)))
  ]

  -- Each row is the one that its key finds.
  abbrev pub IsFound : List R → R → Type 0
  IsFound rs r = lookup key (key r) rs ≡ some r

  IsFound-later :
      (r : R) (rs xs : List R)
      → All (Differs r) xs
      → All (IsFound rs) xs
      → All (IsFound (r ∷ rs)) xs
  unfolding lookup
  IsFound-later r rs [] _ _ = tt
  IsFound-later r rs (x ∷ xs) (d, ds) (q, qs) = (ground (arith, d, q), IsFound-later r rs xs ds qs)

  pub AreKeyed-IsFound : (rs : List R) → AreKeyed rs → All (IsFound rs) rs
  unfolding lookup
  AreKeyed-IsFound [] _ = tt
  AreKeyed-IsFound (r ∷ rs) (d, ds) =
      (ground arith, IsFound-later r rs rs d (AreKeyed-IsFound rs ds))

  pub lookup-missing :
      (k : ℕ) (rs : List R) → All (λ (s : R). (key s == k) ≡ false) rs → lookup key k rs ≡ none
  unfolding lookup
  lookup-missing k [] _ = refl
  lookup-missing k (r ∷ rs) (d, ds) = ground (arith, d, lookup-missing k rs ds)

  rows_apart :
      (k : ℕ) (r : R) (rs : List R)
      → (key r == k) ≡ true
      → All (Differs r) rs
      → All (λ (s : R). (key s == k) ≡ false) rs
  rows_apart k r [] _ _ = tt
  rows_apart k r (s ∷ rs) here (d, ds) =
      (ground (arith, d, (==_iff (key r) k).0 here), rows_apart k r rs here ds)

  -- Behind the row of a key there is no other.
  pub lookup-later :
      (k : ℕ) (r : R) (rs : List R)
      → (key r == k) ≡ true
      → All (Differs r) rs
      → lookup key k rs ≡ none
  lookup-later k r rs here d = lookup-missing k rs (rows_apart k r rs here d)

  abbrev pub kept_if : (R → Bool) → Option R → Option R
  kept_if p none = none
  kept_if p (some r) = if p r then some r else none

  pub lookup-where_rows :
      (p : R → Bool) (k : ℕ) (rs : List R)
      → AreKeyed rs
      → lookup key k (where_rows p rs) ≡ kept_if p (lookup key k rs)
  unfolding lookup where_rows
  lookup-where_rows p k [] _ = refl
  lookup-where_rows p k (r ∷ rs) (d, ds) =
      let rest = lookup-where_rows p k rs ds in
      elim (Bool-cases (key r == k)) [
        | inr other ↦ ground (arith, rest, other)
        | inl here ↦ ground (arith, rest, here, lookup-later k r rs here d)
      ]

  lookup-insert_by :
      (by : R → ℕ) (k : ℕ) (r : R) (rs : List R)
      → All (Differs r) rs
      → lookup key k (insert_by by r rs) ≡ lookup key k (r ∷ rs)
  unfolding lookup insert_by
  lookup-insert_by by k r [] _ = refl
  lookup-insert_by by k r (s ∷ rs) (d, ds) = ground (
    arith,
    lookup-insert_by by k r rs ds,
    d,
    ==_iff (key r) k,
    ==_iff (key s) k,
    ==_iff (key s) (key r),
  )

  pub lookup-sort_by :
      (by : R → ℕ) (k : ℕ) (rs : List R)
      → AreKeyed rs
      → lookup key k (sort_by by rs) ≡ lookup key k rs
  unfolding lookup sort_by
  lookup-sort_by by k [] _ = refl
  lookup-sort_by by k (r ∷ rs) (d, ds) =
      lookup-insert_by by k r (sort_by by rs) (All-sort_by (Differs r) by rs d)
      ∙ ap (λ (x : Option R). if key r == k then some r else x) (lookup-sort_by by k rs ds)
