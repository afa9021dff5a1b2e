-- ===== src/Admin/Newest.antt =====
-- Rows in a descending order of times, as the queries of services/admin/app ask for them: where the
-- times differ, there is one such order.
use mathlib.Core.List.Permᴰ
use mathlib.Core.List.{Permᴰ}
use my_go_market.Prelude.{
  ℕ, suc, ◌≤◌, true, false, some, List, [], ◌∷◌, ◌≡◌, ◌≢◌, refl, ◌==◌, length, arith, ap, sym,
  subst, ◌∙◌, All, Bool-cases, inl, inr, ==_iff,
}
use my_go_market.Table.{lookup}
use my_go_market.Table.Keyed.{AreKeyed, Differs, lookup-later}

pub length-perm : {R : Type 0} {xs ys : List R} → Permᴰ xs ys → length xs ≡ length ys
length-perm Permᴰ.nil = refl
length-perm (Permᴰ.cons e p) = ap suc (length-perm p)
length-perm (Permᴰ.swap e f) = refl
length-perm (Permᴰ.trans p q) = length-perm p ∙ length-perm q

All-perm : {R : Type 0} (P : R → Type 0) {xs ys : List R} → Permᴰ xs ys → All P xs → All P ys
All-perm P Permᴰ.nil h = tt
All-perm P (Permᴰ.cons e p) (h, hs) = (subst P e h, All-perm P p hs)
All-perm P (Permᴰ.swap e f) (h, (g, hs)) = (subst P f g, (subst P e h, hs))
All-perm P (Permᴰ.trans p q) h = All-perm P q (All-perm P p h)

module _ {R : Type 0} (time : R → ℕ) where
  -- No row stands before a newer one.
  abbrev pub AreNewestFirst : List R → Type 0
  AreNewestFirst [] = Unit
  AreNewestFirst (x ∷ xs) = All (λ (y : R). time y ≤ time x) xs × AreNewestFirst xs

  AreKeyed-perm : {xs ys : List R} → Permᴰ xs ys → AreKeyed time xs → AreKeyed time ys
  AreKeyed-perm Permᴰ.nil h = tt
  AreKeyed-perm (Permᴰ.cons {a} {b} {l₁} {l₂} e p) (d, ds) = (
    subst (λ (x : R). All (Differs time x) l₂) e (All-perm (Differs time a) p d),
    AreKeyed-perm p ds,
  )
  AreKeyed-perm (Permᴰ.swap {a} {b} {a'} {b'} {l} e f) ((ab, ad), (bd, ds)) = (
    (
      subst (λ (x : R). Differs time x b') f
          (subst (λ (x : R). Differs time b x) e (ground (arith, ab))),
      subst (λ (x : R). All (Differs time x) l) f bd,
    ),
    (subst (λ (x : R). All (Differs time x) l) e ad, ds),
  )
  AreKeyed-perm (Permᴰ.trans p q) h = AreKeyed-perm q (AreKeyed-perm p h)

  lookup-perm :
      (t : ℕ) {xs ys : List R}
      → Permᴰ xs ys
      → AreKeyed time xs
      → lookup time t xs ≡ lookup time t ys
  unfolding lookup
  lookup-perm t Permᴰ.nil h = refl
  lookup-perm t (Permᴰ.cons {a} {b} {l₁} {l₂} e p) (d, ds) =
      ap (λ (x : R). lookup time t (x ∷ l₁)) e ∙ ground (arith, lookup-perm t p ds)
  lookup-perm t (Permᴰ.swap {a} {b} {a'} {b'} {l} e f) ((ab, ad), (bd, ds)) =
      swapped
      ∙ ap (λ (x : R). lookup time t (x ∷ a ∷ l)) f
      ∙ ap (λ (x : R). lookup time t (a' ∷ x ∷ l)) e
    where
      swapped : lookup time t (a ∷ b ∷ l) ≡ lookup time t (b ∷ a ∷ l)
      swapped = ground (arith, ab, ==_iff (time a) t, ==_iff (time b) t, ==_iff (time b) (time a))
  lookup-perm t (Permᴰ.trans p q) h = lookup-perm t p h ∙ lookup-perm t q (AreKeyed-perm p h)

  lookup-bound :
      (t bound : ℕ) (xs : List R) {x : R}
      → All (λ (y : R). time y ≤ bound) xs
      → lookup time t xs ≡ some x
      → t ≤ bound
  unfolding lookup
  lookup-bound t bound [] _ h = absurd (ground (arith, h))
  lookup-bound t bound (y ∷ ys) {x} (q, qs) h = elim (Bool-cases (time y == t)) [
    | inl here ↦ omega (arith, q, (==_iff (time y) t).0 here)
    | inr other ↦ lookup-bound t bound ys {x = x} qs (ground (arith, h, other))
  ]

  same_lists :
      (xs ys : List R)
      → AreKeyed time xs
      → AreKeyed time ys
      → AreNewestFirst xs
      → AreNewestFirst ys
      → ((t : ℕ) → lookup time t xs ≡ lookup time t ys)
      → xs ≡ ys
  unfolding lookup
  same_lists [] [] _ _ _ _ same = refl
  same_lists [] (y ∷ ys) _ _ _ _ same =
      absurd (ground (arith, same (time y), ==_iff (time y) (time y)))
  same_lists (x ∷ xs) [] _ _ _ _ same =
      absurd (ground (arith, same (time x), ==_iff (time x) (time x)))
  same_lists (x ∷ xs) (y ∷ ys) (d, ds) (g, gs) (n, ns) (m, ms) same =
      elim (Bool-cases (time x == time y)) [
        | inl alike ↦
            let e : x ≡ y = head alike in
            ap (λ z. z ∷ xs) e ∙ ap (λ zs. y ∷ zs) (same_lists xs ys ds gs ns ms (tails alike))
        | inr apart ↦ absurd (omega (arith, below apart, above apart, differ apart))
      ]
    where
      head : (time x == time y) ≡ true → x ≡ y
      head alike = ground (
        arith,
        same (time x),
        alike,
        ==_iff (time x) (time x),
        ==_iff (time x) (time y),
        ==_iff (time y) (time x),
      )

      differ : (time x == time y) ≡ false → time x ≢ time y
      differ apart e = ground (arith, apart, ==_iff (time x) (time y))

      below : (time x == time y) ≡ false → time x ≤ time y
      below apart = lookup-bound (time x) (time y) ys {x = x} m (
          ground (
            arith,
            same (time x),
            apart,
            ==_iff (time x) (time x),
            ==_iff (time x) (time y),
            ==_iff (time y) (time x),
          ))

      above : (time x == time y) ≡ false → time y ≤ time x
      above apart =
          lookup-bound (time y) (time x) xs {x = y} n
            (ground (arith, same (time y), apart, ==_iff (time y) (time y)))

      tails : (time x == time y) ≡ true → (t : ℕ) → lookup time t xs ≡ lookup time t ys
      tails alike t = elim (Bool-cases (time x == t)) [
        | inl here ↦
            lookup-later time t x xs here d
            ∙ sym (
                lookup-later time t y ys
                  (ground (
                    arith,
                    here,
                    alike,
                    ==_iff (time x) t,
                    ==_iff (time x) (time y),
                    ==_iff (time y) t,
                  ))
                  g)
        | inr other ↦ ground (
          arith,
          same t,
          other,
          alike,
          ==_iff (time x) t,
          ==_iff (time x) (time y),
          ==_iff (time y) t,
        )
      ]

  -- Two descending orders of rows whose times differ are the same.
  pub sorted_unique :
      (xs ys rows : List R)
      → Permᴰ xs rows
      → AreNewestFirst xs
      → Permᴰ ys rows
      → AreNewestFirst ys
      → AreKeyed time rows
      → xs ≡ ys
  sorted_unique xs ys rows p n q m keyed =
      let back = Permᴰ.symm p in
      let back' = Permᴰ.symm q in
      same_lists xs ys (AreKeyed-perm back keyed) (AreKeyed-perm back' keyed) n m
        (λ t. sym (lookup-perm t back keyed) ∙ lookup-perm t back' keyed)
