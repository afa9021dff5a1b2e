-- ===== src/Market/Republishing.antt =====
-- A publication that is sent again, and one that fails (market.go, PublishApp).
use my_go_market.Prelude.{
  ℕ, Bool, true, false, not, none, some, List, ◌∷◌, ◌≡◌, refl, ◌⊎◌, inl, inr, ltb, length, arith,
  ap, sym, ◌∙◌, Bool-cases, ==_refl,
}
use my_go_market.Prelude.Text.{Text, codes, text_eq, text_eq_refl, text_eq_iff, is_empty}
use my_go_market.Table.{find_by}
use my_go_market.Web.{Reply, answered, answered-bind, answered-injective, or_refuse, refuse_if}
use my_go_market.Market.Store.{
  App, get_by_id, field, stored_key, get_by_developer_id_and_idempotency_key,
}
use my_go_market.Market.Cache.{Market, Moment, invalidate_app_detail_cache}
use my_go_market.Market.Handlers.{remove_file, object_name_of}
use my_go_market.Market.Publish.{
  PublishInput, PublishLib, Draw, Prepared, Published, request_key, validate_uploaded_filename,
  max_file_size, byte_length, existing, found_published, check_publish, object_name, new_app,
  publish_app,
}
use my_go_market.Market.Writes.{create-others, remove_file-keeps}
use my_go_market.Market.Coherence.{invalidate-apps, invalidate-objects}
use my_go_market.Market.Publishing.{
  made, stored, removed, Outcome, stopped, found, inserted, undone, publish_app-Outcome,
}

check_publish-key :
    (lib : PublishLib) (req : PublishInput) {p : Prepared}
    → check_publish lib req ≡ answered p
    → p.key ≡ request_key req
unfolding check_publish
check_publish-key lib req h =
    let (user_id, _, h1) = answered-bind (or_refuse req.user_id 401 (codes "UNAUTHORIZED")) _ h in
    let (dev, _, h2) =
      answered-bind (or_refuse (lib.uuids.parse_uuid user_id) 401 (codes "INVALID_USER_ID")) _ h1 in
    let (form, _, h3) = answered-bind (or_refuse req.form 400 (codes "BAD_REQUEST")) _ h2 in
    let (file, _, h4) = answered-bind (or_refuse req.file 400 (codes "APP_FILE_REQUIRED")) _ h3 in
    let (_, _, h5) =
      answered-bind
        (refuse_if (not (validate_uploaded_filename file.filename)) 400 (codes "INVALID_FILENAME"))
        _ h4 in
    let (_, _, h6) =
      answered-bind
        (refuse_if (ltb max_file_size (length file.content)) 400 (codes "FILE_TOO_LARGE")) _ h5 in
    let (_, _, h7) =
      answered-bind
        (refuse_if (ltb 128 (byte_length (request_key req))) 400 (codes "IDEMPOTENCY_KEY_TOO_LONG"))
        _ h6 in
    ap (λ (p : Prepared). p.key) (sym (answered-injective h7))

-- The new row is found by its developer and key.
existing-made :
    (lib : PublishLib) (at : Moment) (d : Draw) (p : Prepared) (t : Text × Text) (etag : Text)
    (apps : List App)
    → is_empty p.key ≡ false
    → existing p (made lib at d p t etag ∷ apps) ≡ some (made lib at d p t etag)
unfolding get_by_developer_id_and_idempotency_key find_by stored_key field new_app text_eq
existing-made lib at d p t etag apps full =
    ground (arith, full, text_eq_refl p.key, ==_refl p.developer_id)

-- With a key that the table has, the answer is the app that has it.
answers_found :
    (lib : PublishLib) (at : Moment) (d : Draw) (req : PublishInput) (s : Market) {p : Prepared}
    {a : App}
    → check_publish lib req ≡ answered p
    → existing p s.apps ≡ some a
    → publish_app lib at d req s ≡ (answered (found_published a), s)
unfolding publish_app
answers_found lib at d req s passes there = rw (passes, there, publish_app) refl

-- A request with an idempotency key that was answered, by the app it made or by one that was there,
-- and that is sent again to what it left behind, at any other time and with any other draws, is
-- answered with the same app, marked as a repetition, and changes nothing.
pub publish_again :
    (lib : PublishLib) (at at2 : Moment) (d d2 : Draw) (req : PublishInput) (s : Market)
    {r : Published} {s' : Market}
    → publish_app lib at d req s ≡ (answered r, s')
    → is_empty (request_key req) ≡ false
    → publish_app lib at2 d2 req s'
      ≡ (answered (record { app_id = r.app_id; idempotent = true }), s')
unfolding invalidate_app_detail_cache new_app
publish_again lib at at2 d d2 req s {r} {s'} h full =
    by_outcome (publish_app-Outcome lib at d req s)
  where
    again :
        (p : Prepared) (a : App) {t : Market} {i : Bool}
        → check_publish lib req ≡ answered p
        → existing p t.apps ≡ some a
        → ◌≡◌ {A = Reply Published × Market}
            (answered r, s')
            (answered (record { app_id = a.app_id; idempotent = i }), t)
        → publish_app lib at2 d2 req s'
          ≡ (answered (record { app_id = r.app_id; idempotent = true }), s')
    again p a {t} {i} passes there e =
        let es : s' ≡ t = ap (λ (q : Reply Published × Market). q.1) e in
        let er : r ≡ record { app_id = a.app_id; idempotent = i } =
          answered-injective (ap (λ (q : Reply Published × Market). q.0) e) in
        rw (es, er) (answers_found lib at2 d2 req t passes there)

    by_outcome :
        Outcome lib at d req s (publish_app lib at d req s)
        → publish_app lib at2 d2 req s'
          ≡ (answered (record { app_id = r.app_id; idempotent = true }), s')
    by_outcome (stopped status code e) = absurd (ground (arith, sym h ∙ e))
    by_outcome (found p a passes there e) = again p a passes there (sym h ∙ e)
    by_outcome (inserted p t etag apps passes new e) =
        again p (made lib at d p t etag) passes
          (ap (existing p) (
              invalidate-apps at d.app_id (record (stored lib at d p t.0 s) { apps = apps })
              ∙ (create-others (made lib at d p t etag) (d.meanwhile s.apps) 0 new).2)
            ∙ existing-made lib at d p t etag (d.meanwhile s.apps)
                (ap is_empty (check_publish-key lib req passes) ∙ full))
          (sym h ∙ e)
    by_outcome (undone p e passes (inl failed)) = absurd (ground (arith, sym h ∙ failed))
    by_outcome (undone p e passes (inr (b, there, reused))) =
        again p b passes
          (ap (existing p)
              (remove_file-keeps d.removes (object_name lib p.developer_id d.app_id e)
                (stored lib at d p e s)).0
            ∙ there)
          (sym h ∙ reused)

-- An object that was added and is removed again.
removed-objects :
    (lib : PublishLib) (at : Moment) (d : Draw) (p : Prepared) (e : Text) (s : Market) (n : Text)
    → d.removes ≡ true
    → s.objects (object_name lib p.developer_id d.app_id e) ≡ false
    → (removed lib at d p e s).objects n ≡ s.objects n
unfolding remove_file object_name
removed-objects lib at d p e s n works fresh =
    elim (Bool-cases (text_eq n (object_name lib p.developer_id d.app_id e))) [
      | inr other ↦ ground (arith, works, other)
      | inl same ↦
          let old : s.objects n ≡ false =
            ap s.objects ((text_eq_iff n (object_name lib p.developer_id d.app_id e)).0 same)
            ∙ fresh in
          ground (arith, works, same, old)
    ]

removed-apps :
    (lib : PublishLib) (at : Moment) (d : Draw) (p : Prepared) (e : Text) (s : Market)
    → (removed lib at d p e s).apps ≡ d.meanwhile s.apps
removed-apps lib at d p e s =
    (remove_file-keeps d.removes (object_name lib p.developer_id d.app_id e)
      (stored lib at d p e s)).0

-- The row and the file of a new app.
abbrev pub IsPublished : Draw → Market → Reply Published → Market → Type 0
IsPublished d s r s' =
    (a : App) × (s'.apps ≡ a ∷ d.meanwhile s.apps)
    × (get_by_id a.app_id (d.meanwhile s.apps) ≡ none)
    × (s'.objects (object_name_of a) ≡ true)
    × (r ≡ answered (record { app_id = a.app_id; idempotent = false }))

-- The table is as it was, or as other requests have left it, and so are the files.
abbrev pub IsUndone : Draw → Market → Market → Type 0
IsUndone d s s' =
    ((s'.apps ≡ s.apps) ⊎ (s'.apps ≡ d.meanwhile s.apps))
    × ((n : Text) → s'.objects n ≡ s.objects n)

-- Where Minio removes files, and the drawn id is in no file's name: a publication adds one row, under
-- an id that had none, with the file that the row names, and answers with that id; or it adds no row
-- and leaves the files as they were. This is so whatever other requests do to the table between its
-- lookup and its insert.
pub publish_all_or_nothing :
    (lib : PublishLib) (at : Moment) (d : Draw) (req : PublishInput) (s : Market)
    → d.removes ≡ true
    → ((dev : ℕ) (e : Text) → s.objects (object_name lib dev d.app_id e) ≡ false)
    → let (r, s') = publish_app lib at d req s in IsPublished d s r s' ⊎ IsUndone d s s'
unfolding new_app invalidate_app_detail_cache field text_eq
publish_all_or_nothing lib at d req s works fresh = by_outcome (publish_app-Outcome lib at d req s)
  where
    Ends : Reply Published × Market → Type 0
    Ends (r, s') = IsPublished d s r s' ⊎ IsUndone d s s'

    by_outcome :
        Outcome lib at d req s (publish_app lib at d req s) → Ends (publish_app lib at d req s)
    by_outcome (stopped status code e) = rw e (inr (inl refl, λ n. refl))
    by_outcome (found p a passes there e) = rw e (inr (inl refl, λ n. refl))
    by_outcome (inserted p t etag apps passes new e) =
        let (_, free, cons) = create-others (made lib at d p t etag) (d.meanwhile s.apps) 0 new in
        let u : Market = record (stored lib at d p t.0 s) { apps = apps } in
        rw e (
          inl (
            made lib at d p t etag,
            invalidate-apps at d.app_id u ∙ cons,
            free,
            ap (λ (f : Text → Bool). f (object_name lib p.developer_id d.app_id t.0))
                  (invalidate-objects at d.app_id u)
                ∙ rw (text_eq_refl (object_name lib p.developer_id d.app_id t.0)) refl,
            refl,
          ))
    by_outcome (undone p e passes (inl failed)) = rw failed (
        inr (
          inr (removed-apps lib at d p e s),
          λ n. removed-objects lib at d p e s n works (fresh p.developer_id e),
        ))
    by_outcome (undone p e passes (inr (b, there, reused))) = rw reused (
        inr (
          inr (removed-apps lib at d p e s),
          λ n. removed-objects lib at d p e s n works (fresh p.developer_id e),
        ))
