-- ===== src/Market/Ranked.antt =====
-- What a query for rankings answers with (GetRankings of market.go).
use my_go_market.Prelude.{
  ℕ, suc, ◌≤◌, Bool, true, false, Option, none, some, List, [], ◌∷◌, ◌≡◌, refl, ◌==◌, ◌&&◌, ◌⊎◌,
  inl, inr, length, take, arith, ap, subst, ◌∙◌, All, Option-cases, Bool-cases, length-take, ==_iff,
}
use my_go_market.Prelude.{Perm}
use my_go_market.Prelude.Int.{ℤ, pos, negsuc}
use my_go_market.Prelude.Text.{Text}
use my_go_market.Redis.{Redis, absent, silent, answering}
use my_go_market.Table.{find_by, find_by-holds, where_rows}
use my_go_market.Web.{answered}
use my_go_market.Market.Store.{App, get_by_id, get_by_ids, mem}
use my_go_market.Market.Boards.{RankKey, Score, ranking_key, members, by_score, z_rev_range}
use my_go_market.Market.Cache.{RankingApp, Market, Moment}
use my_go_market.Market.Rankings.{
  get_ranking_cache, set_ranking_cache, is_published, ids_of, rank_apps, query_rankings,
  ranking_limit, get_rankings,
}
use my_go_market.Market.RankOrder.{AreDescending, by_score-perm, by_score-AreDescending}

abbrev is_shown : ℕ → App → Bool
is_shown id a = a.app_id == id && is_published a

-- The published row of an app.
unfoldable pub published_row : (app_id : ℕ) → List App → Option App
published_row id apps = find_by (is_shown id) apps

abbrev is_there : Option App → Bool
is_there none = false
is_there (some a) = true

abbrev pub is_listed : List App → Score → Bool
is_listed apps x = is_there (published_row x.app_id apps)

-- The members that the rows of an answer show, with their scores.
unfoldable pub scores_of : List RankingApp → List Score
scores_of [] = []
scores_of (r ∷ rs) = record { app_id = r.app.app_id; score = r.score } ∷ scores_of rs

-- The ranks count up, and each app is the published row of the table.
unfoldable pub AreRanked : (apps : List App) → (rank : ℕ) → List RankingApp → Type 0
AreRanked apps n [] = Unit
AreRanked apps n (r ∷ rs) =
    (r.rank ≡ n)
    × (published_row r.app.app_id apps ≡ some r.app)
    × (is_published r.app ≡ true)
    × AreRanked apps (suc n) rs

-- An answer from the sorted set: its members in a descending order, cut at the limit; of these the
-- rows show exactly those that have a published app, in that order and with these scores.
pub record IsRanked (apps : List App) (board : List Score) (limit : ℕ) (rs : List RankingApp)
    : Type 0 where
  pub top : List Score
  pub same : Perm top board
  pub descending : AreDescending top
  pub shown : scores_of rs ≡ where_rows (is_listed apps) (take limit top)
  pub ranked : AreRanked apps 1 rs
  pub few : length rs ≤ limit

-- The query reads the rows of the members alone; the row of a member is found there as in the table.
get_by_id-row :
    (id : ℕ) (ids : List ℕ) (apps : List App)
    → mem id ids ≡ true
    → get_by_id id (where_rows is_published (get_by_ids ids apps)) ≡ published_row id apps
unfolding get_by_id get_by_ids where_rows published_row find_by my_go_market.Table.lookup
get_by_id-row id ids [] there = refl
get_by_id-row id ids (a ∷ apps) there = elim (Bool-cases (a.app_id == id)) [
  | inl here ↦
      let e : a.app_id ≡ id = (==_iff a.app_id id).0 here in
      ground (arith, get_by_id-row id ids apps there, here, ap (λ k. mem k ids) e ∙ there)
  | inr other ↦ ground (arith, get_by_id-row id ids apps there, other)
]

abbrev AreAmong : List ℕ → List Score → Type 0
AreAmong ids xs = All (λ (x : Score). mem x.app_id ids ≡ true) xs

later_among : (k : ℕ) (ids : List ℕ) (xs : List Score) → AreAmong ids xs → AreAmong (k ∷ ids) xs
unfolding mem
later_among k ids [] _ = tt
later_among k ids (x ∷ xs) (h, hs) = (ground (arith, h), later_among k ids xs hs)

ids_of-AreAmong : (xs : List Score) → AreAmong (ids_of xs) xs
unfolding ids_of mem
ids_of-AreAmong [] = tt
ids_of-AreAmong (x ∷ xs) = (
  ground (arith, ==_iff x.app_id x.app_id),
  later_among x.app_id (ids_of xs) xs (ids_of-AreAmong xs),
)

published_row-holds :
    (id : ℕ) (apps : List App) {a : App}
    → published_row id apps ≡ some a
    → (a.app_id ≡ id) × (is_published a ≡ true)
unfolding published_row
published_row-holds id apps {a} found =
    let shown = find_by-holds (is_shown id) apps {r = a} found in
    ((==_iff a.app_id id).0 (ground (arith, shown)), ground (arith, shown))

rank_apps_lem :
    (n : ℕ) (ids : List ℕ) (xs : List Score) (apps : List App)
    → AreAmong ids xs
    → let rs = rank_apps n xs (where_rows is_published (get_by_ids ids apps)) in
      AreRanked apps n rs
      × (scores_of rs ≡ where_rows (is_listed apps) xs)
      × (length rs ≤ length xs)
unfolding rank_apps AreRanked scores_of where_rows
rank_apps_lem n ids [] apps _ = (tt, refl, omega arith)
rank_apps_lem n ids (x ∷ xs) apps (there, others) =
    let row = get_by_id-row x.app_id ids apps there in
    elim (Option-cases (published_row x.app_id apps)) [
      | inl missing ↦
          let (ranked, shown, few) = rank_apps_lem n ids xs apps others in
          rw (row ∙ missing, missing, rank_apps) (ranked, shown, omega (arith, few))
      | inr (a, found) ↦
          let (ranked, shown, few) = rank_apps_lem (suc n) ids xs apps others in
          let (id, public) = published_row-holds x.app_id apps found in
          rw (row ∙ found, found, rank_apps)
            (
              (refl, ap (λ k. published_row k apps) id ∙ found, public, ranked),
              ap
                    (λ k.
                      record { app_id = k; score = x.score }
                      ∷ scores_of
                          (rank_apps (suc n) xs (where_rows is_published (get_by_ids ids apps))))
                    id
                  ∙ ap (λ ys. x ∷ ys) shown,
              omega (arith, few),
            )
    ]

query_rankings-IsRanked :
    (now : ℕ) (key : RankKey) (limit : ℕ) (s : Market)
    → IsRanked s.apps (members now (s.boards key)) limit (query_rankings now key limit s)
unfolding query_rankings z_rev_range
query_rankings-IsRanked now key limit s =
    let top = by_score (members now (s.boards key)) in
    let (ranked, shown, few) =
      rank_apps_lem 1 (ids_of (take limit top)) (take limit top) s.apps
        (ids_of-AreAmong (take limit top)) in
    record {
      top = top;
      same = by_score-perm (members now (s.boards key));
      descending = by_score-AreDescending (members now (s.boards key));
      shown = shown;
      ranked = ranked;
      few = omega (arith, few, length-take limit top);
    }

ranking_limit-bound : (limit : Option ℤ) {n : ℕ} → ranking_limit limit ≡ some n → n ≤ 100
unfolding ranking_limit
ranking_limit-bound none h = cc
ranking_limit-bound (some (negsuc n)) h = cc
ranking_limit-bound (some (pos n)) h = ground (arith, h)

-- An answer to a query for rankings is the one that is cached for its type and limit, with the state
-- as it was. Or it is made from the sorted set of the type: there is a list of exactly its members,
-- from the highest score down, of which the first ones, as many as the limit asks for, are shown,
-- those that have a published app, in this order, with their scores, ranked by 1, 2, 3 and so on; and
-- this answer is cached. The limit is at most 100.
pub get_rankings-IsRanked :
    (at : Moment) (t : Text) (limit : Option ℤ) (s : Market) {rs : List RankingApp} {s' : Market}
    → get_rankings at t limit s ≡ (answered rs, s')
    → (n : ℕ) × (key : RankKey) × (ranking_limit limit ≡ some n)
      × (n ≤ 100)
      × (ranking_key t at.day at.week ≡ some key)
      × (((get_ranking_cache at.now t n s ≡ some rs) × (s' ≡ s))
          ⊎ (IsRanked s.apps (members at.now (s.boards key)) n rs
              × (s' ≡ set_ranking_cache at.now t n rs s)))
unfolding get_rankings
get_rankings-IsRanked at t limit s {rs} {s'} h = elim (Option-cases (ranking_limit limit)) [
  | inl bad ↦ absurd (ground (arith, h, bad))
  | inr (n, good) ↦ elim (Option-cases (ranking_key t at.day at.week)) [
    | inl unknown ↦ absurd (ground (arith, h, good, unknown))
    | inr (key, known) ↦ (
      n,
      key,
      good,
      ranking_limit-bound limit good,
      known,
      by_redis n key good known at.redis refl,
    )
  ]
]
  where
    by_redis :
        (n : ℕ) (key : RankKey)
        → ranking_limit limit ≡ some n
        → ranking_key t at.day at.week ≡ some key
        → (r : Redis) → at.redis ≡ r
        → ((get_ranking_cache at.now t n s ≡ some rs) × (s' ≡ s))
          ⊎ (IsRanked s.apps (members at.now (s.boards key)) n rs
              × (s' ≡ set_ranking_cache at.now t n rs s))
    by_redis n key good known absent e = absurd (ground (arith, h, good, known, e))
    by_redis n key good known silent e = absurd (ground (arith, h, good, known, e))
    by_redis n key good known answering e = elim (Option-cases (get_ranking_cache at.now t n s)) [
      | inr (cached, hit) ↦
          inl (ground (arith, h, good, known, e, hit), ground (arith, h, good, known, e, hit))
      | inl miss ↦
          let it : query_rankings at.now key n s ≡ rs = ground (arith, h, good, known, e, miss) in
          inr (
            subst (IsRanked s.apps (members at.now (s.boards key)) n) it
                (query_rankings-IsRanked at.now key n s),
            ground (arith, h, good, known, e, miss),
          )
    ]
