-- ===== src/Market/Cache.antt =====
-- services/market/app/market.go: the cache of app details in Redis, in front of the table.
use my_go_market.Prelude.{ℕ, ◌+◌, ◌*◌, Bool, Option, none, some, List, ◌==◌, if◌then◌else◌, ltb}
use my_go_market.Prelude.Text.{Text, codes, text_eq}
use my_go_market.Redis.{Redis, absent, silent, answering}
use my_go_market.Market.Store.{App, Metric, get_by_id}
use my_go_market.Market.Boards.{Boards}

-- What the code calls of encoding/json on apps, where none is an error.
pub record JsonLib : Type 0 where
  pub marshal : App → Option Text
  pub unmarshal : Text → Option App

-- A value of Redis, and the time, in seconds, from which it is gone.
pub record Entry : Type 0 where
  pub payload : Text
  pub gone_at : ℕ

-- The keys `market:app:detail:` by the id of the app.
abbrev pub Cache : Type 0
Cache = ℕ → Option Entry

-- A row of an answer to a query for rankings.
pub record RankingApp : Type 0 where
  pub app : App
  pub score : ℕ
  pub rank : ℕ

-- A cached answer, and the time from which it is gone.
pub record RankingEntry : Type 0 where
  pub rankings : List RankingApp
  pub gone_at : ℕ

-- The tables, what Redis holds, and the names of the objects in Minio. The cached rankings are by
-- their type and limit.
pub record Market : Type 0 where
  pub apps : List App
  pub metrics : List Metric
  pub cache : Cache
  pub boards : Boards
  pub ranking_cache : Text → ℕ → Option RankingEntry
  pub objects : Text → Bool

-- What a request meets: the time with its day and its week, Redis, and the random part of a lifetime.
pub record Moment : Type 0 where
  pub now : ℕ
  pub day : ℕ
  pub week : ℕ
  pub redis : Redis
  pub jitter : ℕ

abbrev pub negative_marker : Text
negative_marker = codes "__nil__"

abbrev pub put : ℕ → Option Entry → Cache → Cache
put id v c = λ k. if k == id then v else c k

-- `Set`, `Del` and `Get`, whose errors are ignored or taken as a miss.
unfoldable pub set_entry : Moment → (app_id : ℕ) → (payload : Text) → (ttl : ℕ) → Market → Market
set_entry at id payload ttl s = elim at.redis [
  | answering ↦ record s {
    cache = put id (some (record { payload = payload; gone_at = at.now + ttl })) s.cache;
  }
  | absent ↦ s
  | silent ↦ s
]

unfoldable pub invalidate_app_detail_cache : Moment → (app_id : ℕ) → Market → Market
invalidate_app_detail_cache at id s = elim at.redis [
  | answering ↦ record s { cache = put id none s.cache }
  | absent ↦ s
  | silent ↦ s
]

abbrev pub live : (now : ℕ) → Option Entry → Option Text
live now none = none
live now (some e) = if ltb now e.gone_at then some e.payload else none

unfoldable pub get_entry : Moment → (app_id : ℕ) → Market → Option Text
get_entry at id s = elim at.redis [
  | answering ↦ live at.now (s.cache id)
  | absent ↦ none
  | silent ↦ none
]

abbrev pub app_detail_cache_ttl : (jitter : ℕ) → ℕ
app_detail_cache_ttl jitter = 5 * 60 + jitter

module _ (lib : JsonLib) where
  -- The load from the table, which fills the cache. A missing row is its one error.
  unfoldable pub load_app : Moment → (app_id : ℕ) → Market → Option App × Market
  load_app at id s = elim (get_by_id id s.apps) [
    | none ↦ (none, set_entry at id negative_marker 30 s)
    | some a ↦ elim (lib.marshal a) [
      | none ↦ (some a, s)
      | some payload ↦ (some a, set_entry at id payload (app_detail_cache_ttl at.jitter) s)
    ]
  ]

  unfoldable pub get_app_detail_cached : Moment → (app_id : ℕ) → Market → Option App × Market
  get_app_detail_cached at id s = elim (get_entry at id s) [
    | none ↦ load_app at id s
    | some cached ↦
        if text_eq cached negative_marker then (none, s) else elim (lib.unmarshal cached) [
          | some a ↦ (some a, s)
          | none ↦ load_app at id (invalidate_app_detail_cache at id s)
        ]
  ]
