-- ===== src/Market/Downloads.antt =====
-- What a download is counted as (market.go, DownloadApp and recordDownloadRank).
use my_go_market.Prelude.{
  ℕ, ◌+◌, true, not, Option, some, List, [], ◌∷◌, ◌≡◌, refl, ◌==◌, ◌&&◌, inl, inr, if◌then◌else◌,
  arith, ap, sym, subst, ◌∙◌, ==_iff,
}
use my_go_market.Prelude.Text.{Text, codes, text_eq}
use my_go_market.Table.{lookup-key}
use my_go_market.Web.{
  answered, Reply-cases, answered-bind, answered-injective, or_refuse, refuse_if, Parsers,
  or_refuse-answered,
}
use my_go_market.Market.Store.{App, Metric, app_key, get_by_id, increment_download_metric}
use my_go_market.Redis.{Redis, absent, silent, answering}
use my_go_market.Market.Cache.{Market, Moment}
use my_go_market.Market.Handlers.{
  Download, object_to_download, count_in_redis, record_download_rank, find_download, download_app,
}
use my_go_market.Market.Owners.{refuse_if-answered}

-- The count of an app on a day, 0 if there is no row.
unfoldable pub count_of : (app_id day : ℕ) → List Metric → ℕ
count_of id day [] = 0
count_of id day (m ∷ ms) =
    if m.app_id == id && m.day == day then m.download_count else count_of id day ms

count_of-increment :
    (id day j e : ℕ) (ms : List Metric)
    → count_of id day (increment_download_metric j e ms)
      ≡ (if id == j && day == e then count_of id day ms + 1 else count_of id day ms)
unfolding count_of increment_download_metric
count_of-increment id day j e [] =
    ground (arith, ==_iff id j, ==_iff j id, ==_iff day e, ==_iff e day)
count_of-increment id day j e (m ∷ ms) = ground (
  arith,
  count_of-increment id day j e ms,
  ==_iff id j,
  ==_iff m.app_id j,
  ==_iff m.app_id id,
  ==_iff day e,
  ==_iff m.day e,
  ==_iff m.day day,
)

count_in_redis-metrics :
    (at : Moment) (id : ℕ) (s : Market) → (count_in_redis at id s).metrics ≡ s.metrics
unfolding count_in_redis
count_in_redis-metrics at id s = by_redis at.redis refl
  where
    by_redis : (r : Redis) → at.redis ≡ r → (count_in_redis at id s).metrics ≡ s.metrics
    by_redis absent e = rw e refl
    by_redis silent e = rw e refl
    by_redis answering e = rw e refl

-- The app of a link: a published row, whose object Minio has signed.
find_download_lem :
    (uuids : Parsers) (get_file_url : Text → Option Text) (app_id : Text) (apps : List App)
    {a : App} {url : Text}
    → find_download uuids get_file_url app_id apps ≡ answered (a, url)
    → (uuids.parse_uuid app_id ≡ some a.app_id)
      × (get_by_id a.app_id apps ≡ some a)
      × (text_eq a.status (codes "published") ≡ true)
      × ((name : Text) × (object_to_download a ≡ answered name) × (get_file_url name ≡ some url))
unfolding find_download get_by_id
find_download_lem uuids get_file_url app_id apps {a} {url} h =
    let (id, parsed, h1) =
      answered-bind (or_refuse (uuids.parse_uuid app_id) 400 (codes "INVALID_APP_ID")) _ h in
    let (b, there, h2) =
      answered-bind (or_refuse (get_by_id id apps) 404 (codes "APP_NOT_FOUND")) _ h1 in
    let (_, shown, h3) =
      answered-bind
        (refuse_if (not (text_eq b.status (codes "published"))) 404 (codes "APP_NOT_FOUND")) _ h2 in
    let (name, named, h4) = answered-bind (object_to_download b) _ h3 in
    let (link, signed, h5) =
      answered-bind (or_refuse (get_file_url name) 500 (codes "DOWNLOAD_URL_FAILED")) _ h4 in
    let found : get_by_id id apps ≡ some b =
      or_refuse-answered (get_by_id id apps) 404 (codes "APP_NOT_FOUND") there in
    let key : b.app_id ≡ id = lookup-key app_key id apps found in
    let published : text_eq b.status (codes "published") ≡ true = ground (
      arith,
      refuse_if-answered (not (text_eq b.status (codes "published"))) 404 (codes "APP_NOT_FOUND")
          shown,
    ) in
    let links : get_file_url name ≡ some link =
      or_refuse-answered (get_file_url name) 500 (codes "DOWNLOAD_URL_FAILED") signed in
    let named_id : uuids.parse_uuid app_id ≡ some id =
      or_refuse-answered (uuids.parse_uuid app_id) 400 (codes "INVALID_APP_ID") parsed in
    let all : (uuids.parse_uuid app_id ≡ some b.app_id)
        × (get_by_id b.app_id apps ≡ some b)
        × (text_eq b.status (codes "published") ≡ true)
        × ((name : Text) × (object_to_download b ≡ answered name)
            × (get_file_url name ≡ some link)) =
      (
        named_id ∙ ap some (sym key),
        ap (λ i. get_by_id i apps) key ∙ found,
        published,
        (name, named, links),
      ) in
    subst
      (λ (x : App × Text).
        (uuids.parse_uuid app_id ≡ some x.0.app_id)
        × (get_by_id x.0.app_id apps ≡ some x.0)
        × (text_eq x.0.status (codes "published") ≡ true)
        × ((name : Text) × (object_to_download x.0 ≡ answered name)
            × (get_file_url name ≡ some x.1)))
      (answered-injective h5) all

-- A download that is answered gives the link that Minio signed for the object of the app that the
-- request names, which is in the table and published, adds one to the count of that app on that day, and leaves the counts of other
-- apps and days as they were.
pub download_counts :
    (uuids : Parsers) (get_file_url : Text → Option Text) (at : Moment) (app_id : Text) (s : Market)
    {dl : Download} {s' : Market}
    → download_app uuids get_file_url at app_id s ≡ (answered dl, s')
    → (a : App) × (uuids.parse_uuid app_id ≡ some a.app_id)
      × (get_by_id a.app_id s.apps ≡ some a)
      × (text_eq a.status (codes "published") ≡ true)
      × ((name : Text) × (object_to_download a ≡ answered name)
          × (get_file_url name ≡ some dl.download_url))
      × ((id day : ℕ)
          → count_of id day s'.metrics ≡ (
              if id == a.app_id && day == at.day
              then count_of id day s.metrics + 1
              else count_of id day s.metrics))
unfolding download_app record_download_rank
download_counts uuids get_file_url at app_id s {dl} {s'} h =
    elim (Reply-cases (find_download uuids get_file_url app_id s.apps)) [
      | inr (status, code, refusal) ↦ absurd (ground (arith, h))
      | inl ((a, url), found) ↦
          let (asked, row, shown, (name, named, signed)) =
            find_download_lem uuids get_file_url app_id s.apps found in
          let state : record_download_rank at a.app_id s ≡ s' = ground (arith, h) in
          let link : url ≡ dl.download_url = ground (arith, h) in
          (
            a,
            asked,
            row,
            shown,
            (name, named, signed ∙ ap some link),
            λ id day.
                ap (λ (x : Market). count_of id day x.metrics) (sym state)
                ∙ ap (count_of id day) (count_in_redis-metrics at a.app_id _)
                ∙ count_of-increment id day a.app_id at.day s.metrics,
          )
    ]
