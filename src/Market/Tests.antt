-- ===== src/Market/Tests.antt =====
-- The theorems on the market at concrete requests: developer 7 publishes app 50.
use my_go_market.Prelude.{
  ℕ, ◌+◌, ◌++◌, Bool, true, false, Option, none, some, List, [], ◌∷◌, ◌≡◌, refl, ◌==◌, ◌&&◌, ◌⊎◌,
  if◌then◌else◌, arith, ap, sym, ◌∙◌, Bool-cases, inl, inr, All,
}
use my_go_market.Prelude.Text.{Text, codes, text_eq, text_eq_iff}
use my_go_market.Web.{answered, or_refuse}
use my_go_market.Market.Store.{App, Metadata, text_value, get_by_id}
use my_go_market.Redis.{answering}
use my_go_market.Market.Cache.{JsonLib, Market, Moment, negative_marker}
use my_go_market.Market.Handlers.{
  UpdateAppRequest, Download, object_to_download, get_app_detail, download_app,
}
use my_go_market.Market.Publish.{
  PublishInput, PublishLib, PublishAppRequest, Upload, Draw, Published, object_name, publish_app,
}
use my_go_market.Market.Coherence.{IsFaithful}
use my_go_market.Market.Details.{
  Request, to_publish, to_update, to_off_shelf, to_delete, to_show, serve_all, detail_reads_table,
}
use my_go_market.Market.Authors.{only_developer_changes}
use my_go_market.Market.Republishing.{IsPublished, IsUndone, publish_again, publish_all_or_nothing}
use my_go_market.Market.Downloads.{count_of, download_counts}
use my_go_market.Prelude.{◌≤◌, length}
use my_go_market.Prelude.Int.{pos}
use my_go_market.Market.Boards.{RankKey, ranking_key, members}
use my_go_market.Market.Cache.{RankingApp}
use my_go_market.Market.Rankings.{get_ranking_cache, set_ranking_cache, ranking_limit, get_rankings}
use my_go_market.Market.Ranked.{IsRanked, get_rankings-IsRanked}
use my_go_market.Market.Cache.{Market}

-- Apps as texts: those that are published and have no category, tags or metadata.

unfoldable write :
    (id dev create update : ℕ)
    → (name category : Text) → List Text
    → Metadata
    → (status : Text) → Option Text
write id dev c u name [] [] [] status =
    if text_eq status (codes "published") then some (0 ∷ id ∷ dev ∷ c ∷ u ∷ name) else none
write id dev c u name (x ∷ xs) tags m status = none
write id dev c u name [] (x ∷ xs) m status = none
write id dev c u name [] [] (x ∷ xs) status = none

unfoldable read : Text → Option App
read (mark ∷ id ∷ dev ∷ c ∷ u ∷ name) = some (record {
  app_id = id;
  name = name;
  developer_id = dev;
  category = [];
  tags = [];
  metadata = [];
  status = codes "published";
  create_at = c;
  update_at = u;
})
read t = none

abbrev toy_json : JsonLib
toy_json = record {
  marshal = λ a.
      write a.app_id a.developer_id a.create_at a.update_at a.name a.category a.tags a.metadata
        a.status;
  unmarshal = read;
}

abbrev app_of :
    (id dev create update : ℕ)
    → (name category : Text) → List Text
    → Metadata
    → (status : Text) → App
app_of id dev c u name category tags m status = record {
  app_id = id;
  name = name;
  developer_id = dev;
  category = category;
  tags = tags;
  metadata = m;
  status = status;
  create_at = c;
  update_at = u;
}

write_lem :
    (id dev c u : ℕ) (name category : Text) (tags : List Text) (m : Metadata) (status t : Text)
    → write id dev c u name category tags m status ≡ some t
    → (read t ≡ some (app_of id dev c u name category tags m status))
      × (text_eq t negative_marker ≡ false)
unfolding write read text_eq
write_lem id dev c u name [] [] [] status t h =
    elim (Bool-cases (text_eq status (codes "published"))) [
      | inr other ↦ ground (arith, h)
      | inl same ↦
          let e : 0 ∷ id ∷ dev ∷ c ∷ u ∷ name ≡ t = ground (arith, h) in
          (
            ap read (sym e)
                ∙ ap (λ (x : Text). some (app_of id dev c u name [] [] [] x))
                    (sym ((text_eq_iff status (codes "published")).0 same)),
            ap (λ (x : Text). text_eq x negative_marker) (sym e) ∙ refl,
          )
    ]
write_lem id dev c u name (x ∷ xs) tags m status t h = cc
write_lem id dev c u name [] (x ∷ xs) m status t h = cc
write_lem id dev c u name [] [] (x ∷ xs) status t h = cc

toy_json-IsFaithful : IsFaithful toy_json
toy_json-IsFaithful = record {
  reads_back = λ a t h.
      (write_lem a.app_id a.developer_id a.create_at a.update_at a.name a.category a.tags a.metadata
        a.status t h).0;
  not_marker = λ a t h.
      (write_lem a.app_id a.developer_id a.create_at a.update_at a.name a.category a.tags a.metadata
        a.status t h).1;
}

-- Ids are single characters.

unfoldable parse_one : Text → Option ℕ
parse_one [] = none
parse_one (c ∷ []) = some c
parse_one (c ∷ d ∷ cs) = none

abbrev toy : PublishLib
toy = record {
  uuids = record { parse_uuid = parse_one; new_from_string = λ t. none };
  uuid_string = λ n. n ∷ [];
  detect_content_type = λ bytes. codes "application/zip";
  sha256 = λ bytes. codes "abc";
}

abbrev empty_market : Market
empty_market = record {
  apps = [];
  metrics = [];
  cache = λ k. none;
  boards = λ k. none;
  ranking_cache = λ t limit. none;
  objects = λ n. false;
}

abbrev moment : ℕ → Moment
moment n = record { now = n; day = 1; week = 1; redis = answering; jitter = 5 }

abbrev draw : ℕ → Draw
draw id = record {
  app_id = id;
  saved = true;
  uploaded = some (codes "tag");
  removes = true;
  locked = false;
  meanwhile = λ apps. apps;
}

abbrev input : PublishInput
input = record {
  user_id = some (7 ∷ []);
  form = some (record { name = codes "clock"; category = []; tags = []; status = [] });
  file = some (record { filename = codes "clock.zip"; content = 1 ∷ 2 ∷ [] });
  header_key = codes " k1 ";
  form_key = [];
}

abbrev without_metadata : UpdateAppRequest
without_metadata = record {
  name = codes "Clock";
  category = [];
  tags = [];
  metadata = some [];
  status = [];
}

abbrev requests : List Request
requests =
    to_publish (moment 10) (draw 50) input
    ∷ to_show (moment 15) (50 ∷ [])
    ∷ to_update (moment 20) (50 ∷ []) (some (7 ∷ [])) (some without_metadata)
    ∷ to_show (moment 30) (50 ∷ [])
    ∷ to_off_shelf (moment 40) (50 ∷ []) (some (8 ∷ []))
    ∷ to_off_shelf (moment 50) (50 ∷ []) (some (7 ∷ []))
    ∷ to_show (moment 60) (50 ∷ [])
    ∷ []

detail_reads_table_example :
    (get_app_detail toy.uuids toy_json
      (moment 70)
      (50 ∷ [])
      (serve_all toy_json toy requests empty_market)).0
    ≡ or_refuse
        (get_by_id 50 (serve_all toy_json toy requests empty_market).apps)
        404
        (codes "APP_NOT_FOUND")
unfolding parse_one
detail_reads_table_example =
    detail_reads_table toy_json toy requests empty_market (moment 70) (50 ∷ []) {id = 50}
      toy_json-IsFaithful refl (refl, (tt, (refl, (tt, (refl, (refl, (tt, tt))))))) refl

abbrev clock : App
clock = app_of 50 7 10 10 (codes "clock") [] [] [] (codes "published")

abbrev others : List Request
others =
    to_publish (moment 20) (draw 50) input
    ∷ to_update (moment 20) (50 ∷ []) (some (8 ∷ [])) (some without_metadata)
    ∷ to_off_shelf (moment 40) (50 ∷ []) (some (8 ∷ []))
    ∷ to_delete (moment 50) false true (50 ∷ []) none
    ∷ []

only_developer_changes_example :
    get_by_id 50 (serve_all toy_json toy others (record empty_market { apps = clock ∷ [] })).apps
    ≡ some clock
unfolding parse_one get_by_id my_go_market.Market.Handlers.current_developer_id
    my_go_market.Table.lookup
only_developer_changes_example =
    only_developer_changes toy_json toy others (record empty_market { apps = clock ∷ [] }) 50 clock
      refl (tt, (λ h. ground (arith, h), (λ h. ground (arith, h), (λ h. ground (arith, h), tt))))

abbrev published : Market
published = (publish_app toy (moment 10) (draw 50) input empty_market).1

publish_all_or_nothing_example :
    let (r, s') = publish_app toy (moment 10) (draw 50) input empty_market in
    IsPublished (draw 50) empty_market r s' ⊎ IsUndone (draw 50) empty_market s'
publish_all_or_nothing_example =
    publish_all_or_nothing toy (moment 10) (draw 50) input empty_market refl (λ dev e. refl)

publish_answers :
    publish_app toy (moment 10) (draw 50) input empty_market
    ≡ (answered (record { app_id = 50; idempotent = false }), published)
unfolding publish_app my_go_market.Market.Publish.check_publish
    my_go_market.Market.Publish.validate_uploaded_filename my_go_market.Market.Publish.base
    my_go_market.Market.Publish.strip_slashes my_go_market.Market.Publish.last_element
    my_go_market.Market.Publish.has_slash my_go_market.Market.Publish.has_separator
    my_go_market.Market.Publish.byte_length my_go_market.Market.Publish.publish_new
    my_go_market.Market.Publish.check_lock my_go_market.Market.Publish.acquire_publish_lock
    my_go_market.Market.Publish.check_file my_go_market.Market.Publish.allowed_content_type
    my_go_market.Market.Publish.allowed_type my_go_market.Market.Publish.ext
    my_go_market.Market.Publish.insert_app my_go_market.Market.Publish.new_app
    my_go_market.Market.Publish.upload_app parse_one text_eq object_name
    my_go_market.Prelude.Text.trim_space my_go_market.Prelude.Text.trim_left
    my_go_market.Prelude.Text.is_space my_go_market.Prelude.Text.to_lower
    my_go_market.Market.Store.get_by_developer_id_and_idempotency_key
    my_go_market.Market.Store.create my_go_market.Market.Store.field get_by_id
    my_go_market.Market.Store.stored_key my_go_market.Table.find_by my_go_market.Table.lookup
    my_go_market.Market.Cache.invalidate_app_detail_cache my_go_market.Market.Handlers.remove_file
publish_answers = refl

publish_again_example :
    publish_app toy (moment 99) (draw 60) input published
    ≡ (answered (record { app_id = 50; idempotent = true }), published)
unfolding my_go_market.Prelude.Text.trim_space
publish_again_example =
    publish_again toy (moment 10) (moment 99) (draw 50) (draw 60) input empty_market publish_answers
      refl

abbrev with_file : App
with_file =
    app_of 50 7 10 10 (codes "clock") [] [] ((codes "object_name", text_value (codes "f")) ∷ [])
      (codes "published")

abbrev shelf : Market
shelf = record empty_market { apps = with_file ∷ [] }

abbrev link : Text → Option Text
link name = some (codes "https://files/" ++ name)

abbrev downloaded : Market
downloaded = (download_app toy.uuids link (moment 80) (50 ∷ []) shelf).1

download_answers : download_app toy.uuids link (moment 80) (50 ∷ []) shelf ≡ (
  answered (record { download_url = codes "https://files/f"; checksum = []; etag = [] }),
  downloaded,
)
unfolding download_app my_go_market.Market.Handlers.find_download parse_one get_by_id
    my_go_market.Table.lookup text_eq object_to_download my_go_market.Market.Store.field
    my_go_market.Market.Handlers.record_download_rank
download_answers = refl

download_counts_example :
    (a : App) × (toy.uuids.parse_uuid (50 ∷ []) ≡ some a.app_id)
    × (get_by_id a.app_id shelf.apps ≡ some a)
    × (text_eq a.status (codes "published") ≡ true)
    × ((name : Text) × (object_to_download a ≡ answered name)
        × (link name ≡ some (codes "https://files/f")))
    × ((id day : ℕ)
        → count_of id day downloaded.metrics ≡ (
            if id == a.app_id && day == 1
            then count_of id day shelf.metrics + 1
            else count_of id day shelf.metrics))
download_counts_example =
    download_counts toy.uuids link (moment 80) (50 ∷ []) shelf download_answers

-- After the download, the daily ranking.
abbrev ranked : List RankingApp
ranked = record { app = with_file; score = 1; rank = 1 } ∷ []

abbrev after_rankings : Market
after_rankings = (get_rankings (moment 85) (codes "daily") (some (pos 20)) downloaded).1

rankings_answer :
    get_rankings (moment 85) (codes "daily") (some (pos 20)) downloaded
    ≡ (answered ranked, (get_rankings (moment 85) (codes "daily") (some (pos 20)) downloaded).1)
unfolding get_rankings ranking_limit ranking_key text_eq get_ranking_cache download_app
    my_go_market.Market.Handlers.find_download parse_one get_by_id my_go_market.Table.lookup
    object_to_download my_go_market.Market.Store.field
    my_go_market.Market.Handlers.record_download_rank my_go_market.Market.Handlers.count_in_redis
    my_go_market.Market.Rankings.query_rankings my_go_market.Market.Rankings.rank_apps
    my_go_market.Market.Boards.z_rev_range my_go_market.Market.Boards.by_score
    my_go_market.Market.Boards.add_one my_go_market.Market.Boards.count_on
    my_go_market.Market.Boards.insert_score my_go_market.Market.Rankings.ids_of
    my_go_market.Market.Rankings.set_ranking_cache my_go_market.Market.Store.get_by_ids
    my_go_market.Market.Store.increment_download_metric my_go_market.Market.Store.mem
    my_go_market.Table.where_rows
rankings_answer = refl

get_rankings-IsRanked_example :
    (n : ℕ) × (key : RankKey) × (ranking_limit (some (pos 20)) ≡ some n)
    × (n ≤ 100)
    × (ranking_key (codes "daily") 1 (moment 85).week ≡ some key)
    × (((get_ranking_cache 85 (codes "daily") n downloaded ≡ some ranked)
          × (after_rankings ≡ downloaded))
        ⊎ (IsRanked downloaded.apps (members 85 (downloaded.boards key)) n ranked
            × (after_rankings ≡ set_ranking_cache 85 (codes "daily") n ranked downloaded)))
get_rankings-IsRanked_example =
    get_rankings-IsRanked (moment 85) (codes "daily") (some (pos 20)) downloaded rankings_answer
