-- ===== src/Market/Details.antt =====
-- Requests to the market one after another (market.go), and the details of an app that are shown.
use my_go_market.Prelude.{
  ℕ, Bool, Option, none, some, List, [], ◌∷◌, ◌≡◌, refl, inl, inr, ap, All, Option-cases,
}
use my_go_market.Prelude.Text.{Text, codes}
use my_go_market.Web.{Reply-cases, or_refuse}
use my_go_market.Market.Store.{App, get_by_id}
use my_go_market.Redis.{Redis, absent, silent, answering}
use my_go_market.Market.Cache.{JsonLib, Market, Moment}
use my_go_market.Market.Handlers.{
  UpdateAppRequest, count_in_redis, record_download_rank, update_app, off_shelf_app, delete_app,
  get_app_detail, find_download, download_app,
}
use my_go_market.Market.Publish.{PublishInput, PublishLib, Draw, publish_app}
use my_go_market.Market.Coherence.{IsFaithful, Coherent, get_cached_lem}
use my_go_market.Market.Writes.{
  same-Coherent, update_app-Coherent, off_shelf_app-Coherent, delete_app-Coherent,
  publish_app-Coherent, alone,
}

pub data Request : Type 0 where
  to_publish : Moment → Draw → PublishInput → Request
  to_update : Moment → (app_id : Text) → (user_id : Option Text) → Option UpdateAppRequest → Request
  to_off_shelf : Moment → (app_id : Text) → (user_id : Option Text) → Request
  to_delete :
      Moment → (referenced removes : Bool) → (app_id : Text) → (user_id : Option Text) → Request
  to_show : Moment → (app_id : Text) → Request
  to_download : Moment → (url : Option Text) → (app_id : Text) → Request

-- A request that changes the table finds Redis answering.
abbrev pub IsReached : Request → Type 0
IsReached (to_publish at d req) = at.redis ≡ answering
IsReached (to_update at app_id user_id body) = at.redis ≡ answering
IsReached (to_off_shelf at app_id user_id) = at.redis ≡ answering
IsReached (to_delete at referenced removes app_id user_id) = at.redis ≡ answering
IsReached (to_show at app_id) = Unit
IsReached (to_download at url app_id) = Unit

count_in_redis-keeps :
    (at : Moment) (id : ℕ) (s : Market)
    → ((count_in_redis at id s).apps ≡ s.apps) × ((count_in_redis at id s).cache ≡ s.cache)
unfolding count_in_redis
count_in_redis-keeps at id s = by_redis at.redis refl
  where
    by_redis :
        (r : Redis)
        → at.redis ≡ r
        → ((count_in_redis at id s).apps ≡ s.apps) × ((count_in_redis at id s).cache ≡ s.cache)
    by_redis absent e = rw e (refl, refl)
    by_redis silent e = rw e (refl, refl)
    by_redis answering e = rw e (refl, refl)

pub record_download_rank-keeps :
    (at : Moment) (id : ℕ) (s : Market)
    → ((record_download_rank at id s).apps ≡ s.apps)
      × ((record_download_rank at id s).cache ≡ s.cache)
unfolding record_download_rank
record_download_rank-keeps at id s = count_in_redis-keeps at id _

module _ (json : JsonLib) (lib : PublishLib) where
  -- What a request leaves behind, whatever its answer, with no other request meanwhile.
  unfoldable pub serve : Request → Market → Market
  serve (to_publish at d req) s = (publish_app lib at (alone d) req s).1
  serve (to_update at app_id user_id body) s = (update_app lib.uuids at app_id user_id body s).1
  serve (to_off_shelf at app_id user_id) s = (off_shelf_app lib.uuids at app_id user_id s).1
  serve (to_delete at referenced removes app_id user_id) s =
      (delete_app lib.uuids at referenced removes app_id user_id s).1
  serve (to_show at app_id) s = (get_app_detail lib.uuids json at app_id s).1
  serve (to_download at url app_id) s = (download_app lib.uuids (λ name. url) at app_id s).1

  unfoldable pub serve_all : List Request → Market → Market
  serve_all [] s = s
  serve_all (r ∷ rs) s = serve_all rs (serve r s)

  get_app_detail-Coherent :
      (at : Moment) (app_id : Text) (s : Market)
      → IsFaithful json
      → Coherent json s
      → Coherent json (get_app_detail lib.uuids json at app_id s).1
  unfolding get_app_detail
  get_app_detail-Coherent at app_id s f h = elim (Option-cases (lib.uuids.parse_uuid app_id)) [
    | inl unread ↦ rw (unread, get_app_detail) h
    | inr (id, read) ↦ rw (read, get_app_detail) ((get_cached_lem json at id s f h).coherent)
  ]

  download_app-Coherent :
      (at : Moment) (url : Option Text) (app_id : Text) (s : Market)
      → Coherent json s
      → Coherent json (download_app lib.uuids (λ name. url) at app_id s).1
  unfolding download_app
  download_app-Coherent at url app_id s h =
      elim (Reply-cases (find_download lib.uuids (λ name. url) app_id s.apps)) [
        | inr (status, code, refusal) ↦ rw (refusal, download_app) h
        | inl ((a, link), found) ↦
            rw (found, download_app)
              (same-Coherent json s (record_download_rank at a.app_id s)
                (record_download_rank-keeps at a.app_id s).0
                (record_download_rank-keeps at a.app_id s).1 h)
      ]

  serve-Coherent :
      (r : Request) (s : Market)
      → IsFaithful json
      → IsReached r
      → Coherent json s
      → Coherent json (serve r s)
  unfolding serve
  serve-Coherent (to_publish at d req) s f up h = publish_app-Coherent json lib at d req s up h
  serve-Coherent (to_update at app_id user_id body) s f up h =
      update_app-Coherent json lib.uuids at up app_id user_id body s h
  serve-Coherent (to_off_shelf at app_id user_id) s f up h =
      off_shelf_app-Coherent json lib.uuids at up app_id user_id s h
  serve-Coherent (to_delete at referenced removes app_id user_id) s f up h =
      delete_app-Coherent json lib.uuids at up referenced removes app_id user_id s h
  serve-Coherent (to_show at app_id) s f up h = get_app_detail-Coherent at app_id s f h
  serve-Coherent (to_download at url app_id) s f up h = download_app-Coherent at url app_id s h

  serve_all-Coherent :
      (rs : List Request) (s : Market)
      → IsFaithful json
      → All IsReached rs
      → Coherent json s
      → Coherent json (serve_all rs s)
  unfolding serve_all
  serve_all-Coherent [] s f up h = h
  serve_all-Coherent (r ∷ rs) s f (up, ups) h =
      serve_all-Coherent rs (serve r s) f ups (serve-Coherent r s f up h)

-- Under the stated behaviour of encoding/json: after any requests to publish, update, take off the
-- shelf, delete, show and download apps, one after another from an empty cache, where Redis answers
-- to those that change the table, what is shown of an app is the row of the table, or APP_NOT_FOUND
-- where there is none, whether Redis then answers or not.
pub detail_reads_table :
    (json : JsonLib) (lib : PublishLib) (rs : List Request) (s : Market) (at : Moment)
    (app_id : Text) {id : ℕ}
    → IsFaithful json
    → s.cache ≡ (λ k. none)
    → All IsReached rs
    → lib.uuids.parse_uuid app_id ≡ some id
    → (get_app_detail lib.uuids json at app_id (serve_all json lib rs s)).0
      ≡ or_refuse (get_by_id id (serve_all json lib rs s).apps) 404 (codes "APP_NOT_FOUND")
unfolding get_app_detail
detail_reads_table json lib rs s at app_id {id} f empty up read =
    rw (read, get_app_detail)
      (ap (λ (row : Option App). or_refuse row 404 (codes "APP_NOT_FOUND"))
        (get_cached_lem json at id (serve_all json lib rs s) f
          (serve_all-Coherent json lib rs s f up (λ k. rw empty tt))).row)
