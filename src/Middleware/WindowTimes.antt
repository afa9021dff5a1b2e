-- ===== src/Middleware/WindowTimes.antt =====
-- Times within a sliding window, and how many there are (redis_sliding_window.go).
use my_go_market.Prelude.{
  ℕ, ◌+◌, ◌≤◌, false, List, [], ◌∷◌, ◌≡◌, refl, ◌&&◌, inl, inr, if◌then◌else◌, ltb, leb, length,
  arith, All, Bool-cases,
}
use my_go_market.Prelude.Text.{Text}
use my_go_market.Middleware.SlidingWindow.{Stamp, within, has_member}

-- The times that are less than a window old.
unfoldable pub recent : (now window : ℕ) → List ℕ → List ℕ
recent now w [] = []
recent now w (s ∷ ss) = let rest = recent now w ss in if ltb now (s + w) then s ∷ rest else rest

unfoldable pub scores : List Stamp → List ℕ
scores [] = []
scores (x ∷ xs) = x.score ∷ scores xs

-- The times that lie in the window that ends at a time.
unfoldable pub admitted_in : (at window : ℕ) → List ℕ → ℕ
admitted_in t w [] = 0
admitted_in t w (s ∷ ss) = (if leb s t && ltb t (s + w) then 1 else 0) + admitted_in t w ss

pub scores-within :
    (now w : ℕ) (xs : List Stamp) → scores (within now w xs) ≡ recent now w (scores xs)
unfolding scores within recent
scores-within now w [] = refl
scores-within now w (x ∷ xs) = ground (arith, scores-within now w xs)

pub length-scores : (xs : List Stamp) → length (scores xs) ≡ length xs
unfolding scores
length-scores [] = refl
length-scores (x ∷ xs) = ground (arith, length-scores xs)

pub recent-recent :
    (t now w : ℕ) (ss : List ℕ) → now ≤ t → recent t w (recent now w ss) ≡ recent t w ss
unfolding recent
recent-recent t now w [] h = refl
recent-recent t now w (s ∷ ss) h = ground (arith, h, recent-recent t now w ss h)

-- Nothing is recent a window after the last.
pub recent-old :
    (t last w : ℕ) (ss : List ℕ) → All (λ (s : ℕ). s ≤ last) ss → last + w ≤ t → recent t w ss ≡ []
unfolding recent
recent-old t last w [] below h = refl
recent-old t last w (s ∷ ss) (le, below) h = ground (arith, le, h, recent-old t last w ss below h)

pub has_member-within :
    (m : Text) (now w : ℕ) (xs : List Stamp)
    → has_member m xs ≡ false
    → has_member m (within now w xs) ≡ false
unfolding has_member within
has_member-within m now w [] h = refl
has_member-within m now w (x ∷ xs) h = ground (arith, h, has_member-within m now w xs)

admitted_in-recent :
    (t s w : ℕ) (ss : List ℕ)
    → All (λ (x : ℕ). x ≤ s) ss
    → s ≤ t
    → admitted_in t w ss ≤ length (recent s w ss)
unfolding admitted_in recent
admitted_in-recent t s w [] below h = omega arith
admitted_in-recent t s w (x ∷ ss) (le, below) h =
    ground (arith, le, h, admitted_in-recent t s w ss below h)

-- Times of admission, the newest first: each after the next, and not too many with those before it.
unfoldable pub Capped : (window limit : ℕ) → List ℕ → Type 0
unfolding recent
Capped w limit [] = Unit
Capped w limit (s ∷ ss) =
    (length (recent s w (s ∷ ss)) ≤ limit) × All (λ (x : ℕ). x ≤ s) ss × Capped w limit ss

pub Capped-bound : (t w limit : ℕ) (ss : List ℕ) → Capped w limit ss → admitted_in t w ss ≤ limit
unfolding Capped admitted_in
Capped-bound t w limit [] c = omega arith
Capped-bound t w limit (s ∷ ss) (few, below, c) = elim (Bool-cases (leb s t)) [
  | inr later ↦ ground (arith, later, Capped-bound t w limit ss c)
  | inl before ↦
      let bound : admitted_in t w (s ∷ ss) ≤ length (recent s w (s ∷ ss)) =
        admitted_in-recent t s w (s ∷ ss) (omega arith, below) (ground (arith, before)) in
      ground (arith, bound, few)
]
