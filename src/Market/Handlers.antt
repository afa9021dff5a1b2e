-- ===== src/Market/Handlers.antt =====
-- services/market/app/market.go: the handlers that list, show, change, take off the shelf, delete and
-- download an app. A body of none is one that does not bind.
use my_go_market.Prelude.{
  ℕ, ◌*◌, Bool, false, not, Option, none, some, List, [], ◌∷◌, ◌==◌, ◌&&◌, ◌||◌, if◌then◌else◌, leb,
}
use my_go_market.Prelude.Text.{Text, codes, text_eq, is_empty}
use my_go_market.Errors.{ok, err}
use my_go_market.Web.{Reply, refused, answered, ◌>>=◌, ◌>>◌, or_refuse, refuse_if, Parsers}
use my_go_market.Market.Store.{
  App, text_value, other_value, Metadata, Updates, field, as_text, text_or_empty, get_by_id,
  update_fields, delete, increment_download_metric, list,
}
use my_go_market.Market.Boards.{daily_key, weekly_key, total_key, count_on}
use my_go_market.Redis.{absent, silent, answering}
use my_go_market.Market.Cache.{
  RankingEntry, Market, Moment, JsonLib, invalidate_app_detail_cache, get_app_detail_cached,
}

-- `UpdateAppReq`; metadata of none is an absent or null one.
pub record UpdateAppRequest : Type 0 where
  pub name : Text
  pub category : Text
  pub tags : List Text
  pub metadata : Option Metadata
  pub status : Text

-- `ListAppsReq`, with its defaults filled in.
pub record ListAppsRequest : Type 0 where
  pub page : ℕ
  pub page_size : ℕ
  pub keyword : Text
  pub category : Text
  pub status : Text

abbrev unless_empty : Text → Option Text
unless_empty [] = none
unless_empty (c ∷ cs) = some (c ∷ cs)

abbrev unless_no_tags : List Text → Option (List Text)
unless_no_tags [] = none
unless_no_tags (t ∷ ts) = some (t ∷ ts)

-- The columns that a request changes.
unfoldable pub updates_of : (now : ℕ) → UpdateAppRequest → Updates
updates_of now req = record {
  name = unless_empty req.name;
  category = unless_empty req.category;
  tags = unless_no_tags req.tags;
  metadata = req.metadata;
  status = unless_empty req.status;
  update_at = now;
}

abbrev pub off_shelf : (now : ℕ) → Updates
off_shelf now = record {
  name = none;
  category = none;
  tags = none;
  metadata = none;
  status = some (codes "off_shelved");
  update_at = now;
}

-- The bounds that gin checks on a binding, or a refusal.
unfoldable pub list_apps :
    (ilike : Text → Text → Bool) → Option ListAppsRequest → Market → Reply (List App × ℕ)
list_apps ilike body s = do
  req ← or_refuse body 400 (codes "BAD_REQUEST")
  refuse_if (not (leb 1 req.page && (leb 1 req.page_size && leb req.page_size 100))) 400
      (codes "BAD_REQUEST")
  answered (
      list ilike req.page req.page_size req.keyword req.category
        (if is_empty req.status then codes "published" else req.status) s.apps)

-- `UpdateFields`, then the cache.
unfoldable pub write_fields :
    Moment → (app_id : ℕ) → Updates → (failed : Text) → Market → Reply App × Market
write_fields at id u failed s = elim (update_fields id u s.apps) [
  | err _ ↦ (refused 500 failed, s)
  | ok (a, apps) ↦ (answered a, invalidate_app_detail_cache at id (record s { apps = apps }))
]

-- `RemoveFile`, where it works, of a name that is not empty.
unfoldable pub remove_file : (removes : Bool) → (object_name : Text) → Market → Market
remove_file removes object_name s =
    if removes && not (is_empty object_name)
    then record s { objects = λ k. if text_eq k object_name then false else s.objects k }
    else s

-- The object that an app's metadata names, empty if none or no text.
abbrev pub object_name_of : App → Text
object_name_of a = text_or_empty (as_text (field (codes "object_name") a.metadata))

-- The three sorted sets and the three cached rankings of the default limit.
abbrev pub forget_rankings : (Text → ℕ → Option RankingEntry) → Text → ℕ → Option RankingEntry
forget_rankings cached t limit =
    if limit == 20
      && (text_eq t (codes "daily") || (text_eq t (codes "weekly") || text_eq t (codes "total")))
    then none
    else cached t limit

unfoldable pub count_in_redis : Moment → (app_id : ℕ) → Market → Market
count_in_redis at id s = elim at.redis [
  | absent ↦ s
  | silent ↦ s
  | answering ↦ record s {
    boards = count_on at.now total_key none id (
        count_on at.now (weekly_key at.week) (some (15 * 24 * 3600)) id
          (count_on at.now (daily_key at.day) (some (48 * 3600)) id s.boards));
    ranking_cache = forget_rankings s.ranking_cache;
  }
]

unfoldable pub record_download_rank : Moment → (app_id : ℕ) → Market → Market
record_download_rank at id s =
    count_in_redis at id (record s { metrics = increment_download_metric id at.day s.metrics })

pub record Download : Type 0 where
  pub download_url : Text
  pub checksum : Text
  pub etag : Text

-- The name of the object of an app; a value that is no text is a panic, which gin answers with 500.
unfoldable pub object_to_download : App → Reply Text
object_to_download a = elim (field (codes "object_name") a.metadata) [
  | none ↦ refused 500 (codes "APP_FILE_MISSING")
  | some (text_value t) ↦ if is_empty t then refused 500 (codes "APP_FILE_MISSING") else answered t
  | some (other_value shown) ↦ refused 500 []
]

module _ (uuids : Parsers) where
  -- The user that the authentication left in the request.
  unfoldable pub current_developer_id : (user_id : Option Text) → Option ℕ
  current_developer_id none = none
  current_developer_id (some t) = uuids.parse_uuid t

  unfoldable pub ensure_app_owner : (app_id developer_id : ℕ) → List App → Reply App
  ensure_app_owner id dev apps = do
    a ← or_refuse (get_by_id id apps) 404 (codes "APP_NOT_FOUND")
    refuse_if (not (a.developer_id == dev)) 403 (codes "FORBIDDEN")
    answered a

  -- What the three handlers that change an app ask first: its id and its row.
  unfoldable pub check_owner :
      (app_id : Text) → (user_id : Option Text) → List App → Reply (ℕ × App)
  check_owner app_id user_id apps = do
    id ← or_refuse (uuids.parse_uuid app_id) 400 (codes "INVALID_APP_ID")
    dev ← or_refuse (current_developer_id user_id) 401 (codes "UNAUTHORIZED")
    a ← ensure_app_owner id dev apps
    answered (id, a)

  unfoldable pub check_update :
      (app_id : Text)
      → (user_id : Option Text) → Option UpdateAppRequest
      → List App
      → Reply (ℕ × UpdateAppRequest)
  check_update app_id user_id body apps = do
    _ ← or_refuse (uuids.parse_uuid app_id) 400 (codes "INVALID_APP_ID")
    req ← or_refuse body 400 (codes "BAD_REQUEST")
    (id, _) ← check_owner app_id user_id apps
    answered (id, req)

  unfoldable pub update_app :
      Moment
      → (app_id : Text) → (user_id : Option Text) → Option UpdateAppRequest
      → Market
      → Reply App × Market
  update_app at app_id user_id body s = elim (check_update app_id user_id body s.apps) [
    | refused status code ↦ (refused status code, s)
    | answered (id, req) ↦ write_fields at id (updates_of at.now req) (codes "APP_UPDATE_FAILED") s
  ]

  unfoldable pub off_shelf_app :
      Moment → (app_id : Text) → (user_id : Option Text) → Market → Reply App × Market
  off_shelf_app at app_id user_id s = elim (check_owner app_id user_id s.apps) [
    | refused status code ↦ (refused status code, s)
    | answered (id, _) ↦ write_fields at id (off_shelf at.now) (codes "APP_OFFSHELF_FAILED") s
  ]

  -- `referenced` and `removes` say whether other tables refer to the app, and whether Minio removes.
  unfoldable pub delete_app :
      Moment
      → (referenced removes : Bool) → (app_id : Text) → (user_id : Option Text) → Market
      → Reply (Unit {0}) × Market
  delete_app at referenced removes app_id user_id s = elim (check_owner app_id user_id s.apps) [
    | refused status code ↦ (refused status code, s)
    | answered (id, a) ↦ elim (delete id referenced s.apps) [
      | err _ ↦ (refused 500 (codes "APP_DELETE_FAILED"), s)
      | ok apps ↦ (
        answered tt,
        remove_file removes (object_name_of a)
            (invalidate_app_detail_cache at id (record s { apps = apps })),
      )
    ]
  ]

  unfoldable pub get_app_detail : JsonLib → Moment → (app_id : Text) → Market → Reply App × Market
  get_app_detail lib at app_id s = elim (uuids.parse_uuid app_id) [
    | none ↦ (refused 400 (codes "INVALID_APP_ID"), s)
    | some id ↦
        let (found, s') = get_app_detail_cached lib at id s in
        (or_refuse found 404 (codes "APP_NOT_FOUND"), s')
  ]

  -- The app and its link; `get_file_url` is the signing of Minio's client.
  unfoldable pub find_download :
      (get_file_url : Text → Option Text) → (app_id : Text) → List App → Reply (App × Text)
  find_download get_file_url app_id apps = do
    id ← or_refuse (uuids.parse_uuid app_id) 400 (codes "INVALID_APP_ID")
    a ← or_refuse (get_by_id id apps) 404 (codes "APP_NOT_FOUND")
    refuse_if (not (text_eq a.status (codes "published"))) 404 (codes "APP_NOT_FOUND")
    object_name ← object_to_download a
    url ← or_refuse (get_file_url object_name) 500 (codes "DOWNLOAD_URL_FAILED")
    answered (a, url)

  unfoldable pub download_app :
      (get_file_url : Text → Option Text)
      → Moment
      → (app_id : Text) → Market
      → Reply Download × Market
  download_app get_file_url at app_id s = elim (find_download get_file_url app_id s.apps) [
    | refused status code ↦ (refused status code, s)
    | answered (a, url) ↦ (
      answered (record {
        download_url = url;
        checksum = text_or_empty (as_text (field (codes "sha256") a.metadata));
        etag = text_or_empty (as_text (field (codes "etag") a.metadata));
      }),
      record_download_rank at a.app_id s,
    )
  ]
