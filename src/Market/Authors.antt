-- ===== src/Market/Authors.antt =====
-- Requests to the market one after another (market.go), and whose apps they change.
use my_go_market.Prelude.{
  ℕ, Option, some, List, [], ◌∷◌, ◌≡◌, ◌≢◌, inl, inr, arith, ap, sym, ◌∙◌, All, Option-cases,
}
use my_go_market.Prelude.Text.{Text}
use my_go_market.Web.{Reply, Reply-cases, Parsers}
use my_go_market.Market.Store.{App, get_by_id}
use my_go_market.Market.Cache.{JsonLib, Market, Moment}
use my_go_market.Market.Handlers.{current_developer_id, get_app_detail, find_download, download_app}
use my_go_market.Market.Publish.{
  PublishInput, PublishLib, Draw, Published, object_name, new_app, publish_app,
}
use my_go_market.Market.Coherence.{invalidate-apps}
use my_go_market.Market.Writes.{create-others, remove_file-keeps, alone}
use my_go_market.Market.Details.{
  Request, to_publish, to_update, to_off_shelf, to_delete, to_show, to_download,
  record_download_rank-keeps, serve, serve_all,
}
use my_go_market.Market.Owners.{
  Keeps, get_cached-apps, update_app-Keeps, off_shelf_app-Keeps, delete_app-Keeps,
}
use my_go_market.Market.Publishing.{
  made, stored, Outcome, stopped, found, inserted, undone, publish_app-Outcome,
}

publish_app-Keeps :
    (lib : PublishLib) (at : Moment) (d : Draw) (req : PublishInput) (k : ℕ) (a : App) (s : Market)
    → Keeps k a s.apps (publish_app lib at (alone d) req s).1.apps
unfolding new_app
publish_app-Keeps lib at d req k a s row = by_outcome (publish_app-Outcome lib at (alone d) req s)
  where
    Kept : Reply Published × Market → Type 0
    Kept q = get_by_id k q.1.apps ≡ some a

    by_outcome :
        Outcome lib at (alone d) req s (publish_app lib at (alone d) req s)
        → Kept (publish_app lib at (alone d) req s)
    by_outcome (stopped status code e) = rw e row
    by_outcome (found p b passes there e) = rw e row
    by_outcome (inserted p t etag apps passes new e) =
        let b = made lib at (alone d) p t etag in
        let u : Market = record (stored lib at (alone d) p t.0 s) { apps = apps } in
        let (others, free, cons) = create-others b s.apps k new in
        rw e (
          ap (get_by_id k) (invalidate-apps at d.app_id u)
          ∙ others (λ same. ground (arith, sym row ∙ ap (λ i. get_by_id i s.apps) same ∙ free))
          ∙ row)
    by_outcome (undone p e passes (inl failed)) = rw failed (
        ap (get_by_id k)
          (remove_file-keeps d.removes (object_name lib p.developer_id d.app_id e)
            (stored lib at (alone d) p e s)).0
        ∙ row)
    by_outcome (undone p e passes (inr (b, there, reused))) = rw reused (
        ap (get_by_id k)
          (remove_file-keeps d.removes (object_name lib p.developer_id d.app_id e)
            (stored lib at (alone d) p e s)).0
        ∙ row)

get_app_detail-Keeps :
    (json : JsonLib) (lib : PublishLib) (k : ℕ) (a : App) (at : Moment) (app_id : Text) (s : Market)
    → Keeps k a s.apps (get_app_detail lib.uuids json at app_id s).1.apps
unfolding get_app_detail
get_app_detail-Keeps json lib k a at app_id s row =
    elim (Option-cases (lib.uuids.parse_uuid app_id)) [
      | inl unread ↦ rw (unread, get_app_detail) row
      | inr (id, read) ↦
          rw (read, get_app_detail) (ap (get_by_id k) (get_cached-apps json at id s) ∙ row)
    ]

download_app-Keeps :
    (lib : PublishLib) (k : ℕ) (a : App) (at : Moment) (url : Option Text) (app_id : Text)
    (s : Market)
    → Keeps k a s.apps (download_app lib.uuids (λ name. url) at app_id s).1.apps
unfolding download_app
download_app-Keeps lib k a at url app_id s row =
    elim (Reply-cases (find_download lib.uuids (λ name. url) app_id s.apps)) [
      | inr (status, code, refusal) ↦ rw (refusal, download_app) row
      | inl ((b, link), there) ↦
          rw (there, download_app)
            (ap (get_by_id k) (record_download_rank-keeps at b.app_id s).0 ∙ row)
    ]

-- The request does not ask, as this developer, to change an app.
abbrev pub IsNotBy : Parsers → ℕ → Request → Type 0
IsNotBy uuids dev (to_update at app_id user_id body) = current_developer_id uuids user_id ≢ some dev
IsNotBy uuids dev (to_off_shelf at app_id user_id) = current_developer_id uuids user_id ≢ some dev
IsNotBy uuids dev (to_delete at referenced removes app_id user_id) =
    current_developer_id uuids user_id ≢ some dev
IsNotBy uuids dev (to_publish at d req) = Unit
IsNotBy uuids dev (to_show at app_id) = Unit
IsNotBy uuids dev (to_download at url app_id) = Unit

module _ (json : JsonLib) (lib : PublishLib) (k : ℕ) (a : App) where
  serve-Keeps :
      (r : Request) (s : Market)
      → IsNotBy lib.uuids a.developer_id r
      → Keeps k a s.apps (serve json lib r s).apps
  unfolding serve
  serve-Keeps (to_publish at d req) s other row = publish_app-Keeps lib at d req k a s row
  serve-Keeps (to_update at app_id user_id body) s other row =
      update_app-Keeps lib.uuids at k a app_id user_id body s other row
  serve-Keeps (to_off_shelf at app_id user_id) s other row =
      off_shelf_app-Keeps lib.uuids at k a app_id user_id s other row
  serve-Keeps (to_delete at referenced removes app_id user_id) s other row =
      delete_app-Keeps lib.uuids at k a referenced removes app_id user_id s other row
  serve-Keeps (to_show at app_id) s other row = get_app_detail-Keeps json lib k a at app_id s row
  serve-Keeps (to_download at url app_id) s other row =
      download_app-Keeps lib k a at url app_id s row

  serve_all-Keeps :
      (rs : List Request) (s : Market)
      → All (IsNotBy lib.uuids a.developer_id) rs
      → Keeps k a s.apps (serve_all json lib rs s).apps
  unfolding serve_all
  serve_all-Keeps [] s others row = row
  serve_all-Keeps (r ∷ rs) s (other, others) row =
      serve_all-Keeps rs (serve json lib r s) others (serve-Keeps r s other row)

-- The row of an app stays exactly as it is through any requests to publish, update, take off the
-- shelf, delete, show and download apps, one after another, as long as no request to update, take off
-- the shelf or delete is made as the developer of that app.
pub only_developer_changes :
    (json : JsonLib) (lib : PublishLib) (rs : List Request) (s : Market) (k : ℕ) (a : App)
    → get_by_id k s.apps ≡ some a
    → All (IsNotBy lib.uuids a.developer_id) rs
    → get_by_id k (serve_all json lib rs s).apps ≡ some a
only_developer_changes json lib rs s k a row others = serve_all-Keeps json lib k a rs s others row
