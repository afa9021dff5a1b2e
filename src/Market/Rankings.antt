-- ===== src/Market/Rankings.antt =====
-- services/market/app/market.go: the query for rankings of apps by downloads.
use my_go_market.Prelude.{
  ℕ, suc, ◌+◌, Bool, Option, none, some, List, [], ◌∷◌, ◌==◌, ◌&&◌, if◌then◌else◌, ltb, leb,
}
use my_go_market.Prelude.Int.{ℤ, pos, negsuc}
use my_go_market.Prelude.Text.{Text, codes, text_eq}
use my_go_market.Redis.{absent, silent, answering}
use my_go_market.Table.{where_rows}
use my_go_market.Web.{Reply, refused, answered}
use my_go_market.Market.Store.{App, get_by_id, get_by_ids}
use my_go_market.Market.Boards.{RankKey, Score, ranking_key, z_rev_range}
use my_go_market.Market.Cache.{RankingApp, RankingEntry, Market, Moment}

abbrev live : (now : ℕ) → Option RankingEntry → Option (List RankingApp)
live now none = none
live now (some e) = if ltb now e.gone_at then some e.rankings else none

-- `getRankingCache` and `setRankingCache`, where Redis answers; a cached answer lives ten seconds.
unfoldable pub get_ranking_cache :
    (now : ℕ) → (ranking_type : Text) → (limit : ℕ) → Market → Option (List RankingApp)
get_ranking_cache now t limit s = live now (s.ranking_cache t limit)

unfoldable pub set_ranking_cache :
    (now : ℕ) → (ranking_type : Text) → (limit : ℕ) → List RankingApp → Market → Market
set_ranking_cache now t limit rankings s = record s {
  ranking_cache = λ u n.
      if text_eq u t && n == limit
      then some (record { rankings = rankings; gone_at = now + 10 })
      else s.ranking_cache u n;
}

abbrev pub is_published : App → Bool
is_published a = text_eq a.status (codes "published")

unfoldable pub ids_of : List Score → List ℕ
ids_of [] = []
ids_of (x ∷ xs) = x.app_id ∷ ids_of xs

-- The rows of an answer, ranked from a number on; a member without a published app has none.
unfoldable pub rank_apps : (rank : ℕ) → List Score → List App → List RankingApp
rank_apps n [] apps = []
rank_apps n (x ∷ xs) apps = elim (get_by_id x.app_id apps) [
  | none ↦ rank_apps n xs apps
  | some a ↦ record { app = a; score = x.score; rank = n } ∷ rank_apps (suc n) xs apps
]

unfoldable pub query_rankings : (now : ℕ) → (key : RankKey) → (limit : ℕ) → Market → List RankingApp
unfolding where_rows
query_rankings now key limit s =
    let items = z_rev_range now limit (s.boards key) in
    rank_apps 1 items (where_rows is_published (get_by_ids (ids_of items) s.apps))

-- The limit, from what strconv.Atoi returns, where none is an error.
unfoldable pub ranking_limit : Option ℤ → Option ℕ
ranking_limit none = none
ranking_limit (some (negsuc n)) = none
ranking_limit (some (pos n)) = if leb 1 n && leb n 100 then some n else none

abbrev pub answer_rankings :
    Moment
    → (ranking_type : Text) → (limit : ℕ) → RankKey
    → Market
    → Reply (List RankingApp) × Market
answer_rankings at t limit key s = elim (get_ranking_cache at.now t limit s) [
  | some cached ↦ (answered cached, s)
  | none ↦
      let rankings = query_rankings at.now key limit s in
      (answered rankings, set_ranking_cache at.now t limit rankings s)
]

unfoldable pub get_rankings :
    Moment → (ranking_type : Text) → (limit : Option ℤ) → Market → Reply (List RankingApp) × Market
get_rankings at t limit s = elim (ranking_limit limit) [
  | none ↦ (refused 400 (codes "INVALID_LIMIT"), s)
  | some n ↦ elim (ranking_key t at.day at.week) [
    | none ↦ (refused 400 (codes "INVALID_RANKING_TYPE"), s)
    | some key ↦ elim at.redis [
      | absent ↦ (refused 503 (codes "RANKING_UNAVAILABLE"), s)
      | silent ↦ (refused 500 (codes "RANKING_QUERY_FAILED"), s)
      | answering ↦ answer_rankings at t n key s
    ]
  ]
]
