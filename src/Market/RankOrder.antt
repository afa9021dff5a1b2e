-- ===== src/Market/RankOrder.antt =====
-- The order in which Redis gives the members of a sorted set (ZREVRANGE), as market.go asks for it.
use mathlib.Core.List.Perm
use my_go_market.Prelude.{ℕ, ◌≤◌, List, [], ◌∷◌, arith, All, Bool-cases, inl, inr}
use my_go_market.Prelude.{Perm}
use my_go_market.Market.Boards.{Score, precedes, insert_score, by_score}

-- Every score is at least each one behind it.
abbrev pub AreDescending : List Score → Type 0
AreDescending [] = Unit
AreDescending (x ∷ xs) = All (λ (y : Score). y.score ≤ x.score) xs × AreDescending xs

insert_score-perm : (x : Score) (ys : List Score) → Perm (insert_score x ys) (x ∷ ys)
unfolding insert_score
insert_score-perm x [] = Perm.refl (x ∷ [])
insert_score-perm x (y ∷ ys) = elim (Bool-cases (precedes x y)) [
  | inl before ↦ rw before (Perm.refl (x ∷ y ∷ ys))
  | inr behind ↦ rw behind (Perm.trans (Perm.cons y (insert_score-perm x ys)) (Perm.swap x y ys))
]

pub by_score-perm : (xs : List Score) → Perm (by_score xs) xs
unfolding by_score
by_score-perm [] = Perm.nil
by_score-perm (x ∷ xs) =
    Perm.trans (insert_score-perm x (by_score xs)) (Perm.cons x (by_score-perm xs))

All-insert_score :
    (bound : ℕ) (x : Score) (ys : List Score)
    → x.score ≤ bound
    → All (λ (y : Score). y.score ≤ bound) ys
    → All (λ (y : Score). y.score ≤ bound) (insert_score x ys)
unfolding insert_score
All-insert_score bound x [] h _ = (h, tt)
All-insert_score bound x (y ∷ ys) h (q, qs) = elim (Bool-cases (precedes x y)) [
  | inl before ↦ rw before (h, (q, qs))
  | inr behind ↦ rw behind (q, All-insert_score bound x ys h qs)
]

raise :
    (low high : ℕ) (ys : List Score)
    → low ≤ high
    → All (λ (y : Score). y.score ≤ low) ys
    → All (λ (y : Score). y.score ≤ high) ys
raise low high [] h _ = tt
raise low high (y ∷ ys) h (q, qs) = (omega (arith, q, h), raise low high ys h qs)

insert_score-AreDescending :
    (x : Score) (ys : List Score) → AreDescending ys → AreDescending (insert_score x ys)
unfolding insert_score
insert_score-AreDescending x [] _ = (tt, tt)
insert_score-AreDescending x (y ∷ ys) (q, qs) = elim (Bool-cases (precedes x y)) [
  | inl before ↦
      let below : y.score ≤ x.score = ground (arith, before) in
      rw before ((below, raise y.score x.score ys below q), (q, qs))
  | inr behind ↦
      rw behind (
        All-insert_score y.score x ys (ground (arith, behind)) q,
        insert_score-AreDescending x ys qs,
      )
]

pub by_score-AreDescending : (xs : List Score) → AreDescending (by_score xs)
unfolding by_score
by_score-AreDescending [] = tt
by_score-AreDescending (x ∷ xs) =
    insert_score-AreDescending x (by_score xs) (by_score-AreDescending xs)
