-- ===== src/Market/Publishing.antt =====
-- What publishing an app leaves behind (market.go, PublishApp).
use my_go_market.Prelude.{ℕ, false, some, List, ◌≡◌, refl, ◌⊎◌, inl, inr, Option-cases}
use my_go_market.Prelude.Text.{Text, codes}
use my_go_market.Errors.{ok, Result-cases}
use my_go_market.Web.{Reply, refused, answered, Reply-cases, ◌>>◌}
use my_go_market.Market.Store.{App, create}
use my_go_market.Market.Cache.{Market, Moment, invalidate_app_detail_cache}
use my_go_market.Market.Handlers.{remove_file}
use my_go_market.Market.Publish.{
  PublishInput, PublishLib, Draw, Prepared, Published, existing, found_published, check_publish,
  check_lock, check_file, object_name, new_app, add_object, insert_app, upload_app, publish_new,
  publish_app,
}

module _ (lib : PublishLib) (at : Moment) (d : Draw) where
  -- The app that is made, and the state once its file is uploaded.
  abbrev pub made : Prepared → Text × Text → Text → App
  made p (e, content_type) etag = new_app lib at.now d.app_id e content_type etag p

  abbrev pub stored : Prepared → Text → Market → Market
  stored p e s =
      add_object (object_name lib p.developer_id d.app_id e)
        (record s { apps = d.meanwhile s.apps })

  abbrev pub removed : Prepared → Text → Market → Market
  removed p e s = remove_file d.removes (object_name lib p.developer_id d.app_id e) (stored p e s)

  -- The ways in which a publication ends.
  pub data Outcome (req : PublishInput) (s : Market) (q : Reply Published × Market) : Type 0 where
    stopped : (status : ℕ) (code : Text) → q ≡ (refused status code, s) → Outcome req s q
    found :
        (p : Prepared) (a : App)
        → check_publish lib req ≡ answered p
        → existing p s.apps ≡ some a
        → q ≡ (answered (found_published a), s)
        → Outcome req s q
    inserted :
        (p : Prepared) (t : Text × Text) (etag : Text) (apps : List App)
        → check_publish lib req ≡ answered p
        → create (made p t etag) (d.meanwhile s.apps) ≡ ok apps
        → q ≡ (
          answered (record { app_id = d.app_id; idempotent = false }),
          invalidate_app_detail_cache at d.app_id (record (stored p t.0 s) { apps = apps }),
        )
        → Outcome req s q
    undone :
        (p : Prepared) (e : Text)
        → check_publish lib req ≡ answered p
        → (q ≡ (refused 500 (codes "APP_CREATE_FAILED"), removed p e s))
          ⊎ ((b : App) × (existing p (d.meanwhile s.apps) ≡ some b)
              × (q ≡ (answered (found_published b), removed p e s)))
        → Outcome req s q

  insert_app-Outcome :
      (req : PublishInput) (s : Market) (p : Prepared) (t : Text × Text) (etag : Text)
      → check_publish lib req ≡ answered p
      → Outcome req s (
          insert_app at d p
            (made p t etag)
            (object_name lib p.developer_id d.app_id t.0)
            (stored p t.0 s))
  unfolding insert_app new_app
  insert_app-Outcome req s p t etag passes =
      elim (Result-cases (create (made p t etag) (d.meanwhile s.apps))) [
        | inl (apps, new) ↦ inserted p t etag apps passes new (rw (new, insert_app) refl)
        | inr (e, failed) ↦ elim (Option-cases (existing p (d.meanwhile s.apps))) [
          | inl missing ↦ undone p t.0 passes (inl (rw (failed, missing, insert_app) refl))
          | inr (b, there) ↦
              undone p t.0 passes (inr (b, there, rw (failed, there, insert_app) refl))
        ]
      ]

  pub publish_app-Outcome :
      (req : PublishInput) (s : Market) → Outcome req s (publish_app lib at d req s)
  unfolding publish_app publish_new upload_app
  publish_app-Outcome req s = elim (Reply-cases (check_publish lib req)) [
    | inr (status, code, refusal) ↦ stopped status code (rw (refusal, publish_app) refl)
    | inl (p, passes) ↦ elim (Option-cases (existing p s.apps)) [
      | inr (a, there) ↦ found p a passes there (rw (passes, there, publish_app) refl)
      | inl new ↦ elim (Reply-cases (check_lock at d p >> check_file lib d p.file)) [
        | inr (status, code, refusal) ↦
            stopped status code (rw (passes, new, refusal, publish_app, publish_new) refl)
        | inl (t, typed) ↦ elim (Option-cases d.uploaded) [
          | inl failed ↦
              stopped 500 (codes "MINIO_UPLOAD_FAILED")
                (rw (passes, new, typed, failed, publish_app, publish_new, upload_app) refl)
          | inr (etag, uploaded) ↦
              simp (passes, new, typed, uploaded, publish_app, publish_new, upload_app)
                (insert_app-Outcome req s p t etag passes)
        ]
      ]
    ]
  ]
