-- ===== src/Market/Boards.antt =====
-- services/market/app/market.go: the sorted sets of downloads in Redis, by day, by week and in total.
use my_go_market.Prelude.{
  ℕ, ◌+◌, Bool, true, false, Option, none, some, List, [], ◌∷◌, ◌==◌, ◌&&◌, ◌||◌, if◌then◌else◌,
  ltb, take,
}
use my_go_market.Prelude.Text.{Text, codes, text_eq}

-- The keys `market:rank:downloads:`, by what is written into them.
pub data RankKey : Type 0 where
  daily_key weekly_key : ℕ → RankKey
  total_key : RankKey

abbrev pub same_key : RankKey → RankKey → Bool
same_key (daily_key d) (daily_key e) = d == e
same_key (daily_key d) (weekly_key e) = false
same_key (daily_key d) total_key = false
same_key (weekly_key d) (daily_key e) = false
same_key (weekly_key d) (weekly_key e) = d == e
same_key (weekly_key d) total_key = false
same_key total_key (daily_key e) = false
same_key total_key (weekly_key e) = false
same_key total_key total_key = true

-- `rankingKey`, with the day and the week of the calendar that hold the time.
unfoldable pub ranking_key : (ranking_type : Text) → (day week : ℕ) → Option RankKey
ranking_key t day week =
    if text_eq t (codes "daily")
    then some (daily_key day)
    else if text_eq t (codes "weekly")
    then some (weekly_key week)
    else if text_eq t (codes "total")
    then some total_key
    else none

pub record Score : Type 0 where
  pub app_id : ℕ
  pub score : ℕ

-- A sorted set, and the time from which it is gone, if any.
pub record Board : Type 0 where
  pub scores : List Score
  pub gone_at : Option ℕ

abbrev pub Boards : Type 0
Boards = RankKey → Option Board

-- The members that a key has at a time.
abbrev pub members : (now : ℕ) → Option Board → List Score
members now none = []
members now (some b) = elim b.gone_at [
  | none ↦ b.scores
  | some t ↦ if ltb now t then b.scores else []
]

unfoldable pub score_of : ℕ → List Score → ℕ
score_of id [] = 0
score_of id (x ∷ xs) = if x.app_id == id then x.score else score_of id xs

unfoldable pub add_one : (app_id : ℕ) → List Score → List Score
add_one id [] = record { app_id = id; score = 1 } ∷ []
add_one id (x ∷ xs) =
    let rest = add_one id xs in
    if x.app_id == id then record x { score = x.score + 1 } ∷ xs else x ∷ rest

-- `ZINCRBY key 1 member`, then `EXPIRE`, where there is one.
abbrev pub lifetime : (now : ℕ) → Option ℕ → Option ℕ
lifetime now none = none
lifetime now (some ttl) = some (now + ttl)

unfoldable pub count_on :
    (now : ℕ) → (key : RankKey) → (ttl : Option ℕ) → (app_id : ℕ) → Boards → Boards
count_on now key ttl id boards = λ k.
    if same_key k key
    then some
        (record { scores = add_one id (members now (boards key)); gone_at = lifetime now ttl })
    else boards k

-- The order of `ZREVRANGE`: by score, and by member where scores are equal, from the highest.
abbrev pub precedes : Score → Score → Bool
precedes x y = ltb y.score x.score || (x.score == y.score && ltb y.app_id x.app_id)

unfoldable pub insert_score : Score → List Score → List Score
insert_score x [] = x ∷ []
insert_score x (y ∷ ys) =
    let rest = insert_score x ys in if precedes x y then x ∷ y ∷ ys else y ∷ rest

unfoldable pub by_score : List Score → List Score
by_score [] = []
by_score (x ∷ xs) = insert_score x (by_score xs)

-- `ZREVRANGE key 0 limit-1 WITHSCORES`
unfoldable pub z_rev_range : (now : ℕ) → (limit : ℕ) → Option Board → List Score
z_rev_range now limit b = take limit (by_score (members now b))
