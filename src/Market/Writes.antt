-- ===== src/Market/Writes.antt =====
-- The handlers of market.go that change the table of apps, and the cache of app details.
use my_go_market.Prelude.{
  ℕ, Bool, Option, none, List, [], ◌∷◌, ◌≡◌, ◌≢◌, refl, inl, inr, arith, sym, subst, Bool-cases,
  Option-cases, ==_iff,
}
use my_go_market.Prelude.Text.{Text, is_empty}
use my_go_market.Errors.{ok, Result-cases}
use my_go_market.Table.{lookup, update, where_rows, find_by, lookup-update_ne}
use my_go_market.Web.{Reply-cases, Parsers, ◌>>◌}
use my_go_market.Market.Store.{
  App, Updates, app_key, get_by_id, updated, clashes, create, update_fields, not_app, delete,
}
use my_go_market.Redis.{answering}
use my_go_market.Market.Cache.{JsonLib, Cache, Market, Moment, invalidate_app_detail_cache}
use my_go_market.Market.Handlers.{
  UpdateAppRequest, updates_of, off_shelf, object_name_of, write_fields, remove_file, check_owner,
  check_update, update_app, off_shelf_app, delete_app,
}
use my_go_market.Market.Publish.{
  PublishInput, PublishLib, Draw, Prepared, check_publish, existing, check_lock, check_file,
  object_name, new_app, add_object, insert_app, upload_app, publish_new, publish_app,
}
use my_go_market.Market.Coherence.{EntryAgrees, Coherent, invalidate-Coherent}

pub get_by_id-delete :
    (k id : ℕ) (apps : List App)
    → k ≢ id
    → get_by_id k (where_rows (not_app id) apps) ≡ get_by_id k apps
unfolding get_by_id lookup where_rows
get_by_id-delete k id [] ne = refl
get_by_id-delete k id (a ∷ apps) ne =
    ground (arith, get_by_id-delete k id apps ne, ==_iff a.app_id id, ==_iff a.app_id k)

pub get_by_id-cons :
    (k : ℕ) (a : App) (apps : List App) → k ≢ a.app_id → get_by_id k (a ∷ apps) ≡ get_by_id k apps
unfolding get_by_id lookup
get_by_id-cons k a apps ne = ground (arith, ==_iff a.app_id k)

pub update_fields-others :
    (id : ℕ) (u : Updates) (apps : List App) {a : App} {apps' : List App} (k : ℕ)
    → update_fields id u apps ≡ ok (a, apps')
    → k ≢ id
    → get_by_id k apps' ≡ get_by_id k apps
unfolding update_fields get_by_id
update_fields-others id u apps {a} {apps'} k h ne = elim (Option-cases (lookup app_key id apps)) [
  | inl missing ↦ ground (arith, h)
  | inr (b, found) ↦ elim (Option-cases (find_by (clashes (updated u b)) apps)) [
    | inr (c, clash) ↦ ground (arith, h)
    | inl free ↦
        let e : update app_key id (updated u) apps ≡ apps' = ground (arith, h) in
        subst (λ (x : List App). lookup app_key k x ≡ lookup app_key k apps) e
          (lookup-update_ne app_key k id (updated u) apps (λ r. refl) ne)
  ]
]

-- A write of one row, and the entry of that row dropped.
written-Coherent :
    (lib : JsonLib) (at : Moment) (id : ℕ) (s : Market) (apps : List App)
    → at.redis ≡ answering
    → Coherent lib s
    → ((k : ℕ) → k ≢ id → get_by_id k apps ≡ get_by_id k s.apps)
    → Coherent lib (invalidate_app_detail_cache at id (record s { apps = apps }))
written-Coherent lib at id s apps up h others =
    invalidate-Coherent lib at id (record s { apps = apps }) up
      (λ k ne.
        subst (λ (row : Option App). EntryAgrees lib (s.cache k) row) (sym (others k ne)) (h k))

write_fields-Coherent :
    (lib : JsonLib) (at : Moment) (id : ℕ) (u : Updates) (code : Text) (s : Market)
    → at.redis ≡ answering
    → Coherent lib s
    → Coherent lib (write_fields at id u code s).1
unfolding write_fields
write_fields-Coherent lib at id u code s up h = elim (Result-cases (update_fields id u s.apps)) [
  | inr (e, failed) ↦ rw (failed, write_fields) h
  | inl ((a, apps), done) ↦
      rw (done, write_fields)
        (written-Coherent lib at id s apps up h
          (λ k ne. update_fields-others id u s.apps k done ne))
]

pub remove_file-keeps :
    (removes : Bool) (name : Text) (s : Market)
    → ((remove_file removes name s).apps ≡ s.apps) × ((remove_file removes name s).cache ≡ s.cache)
unfolding remove_file
remove_file-keeps removes name s = elim (Bool-cases removes) [
  | inr stuck ↦ ground (arith, stuck)
  | inl gone ↦ elim (Bool-cases (is_empty name)) [ inl e ↦ ground arith | inr e ↦ ground arith ]
]

-- A state with the same apps and cache.
pub same-Coherent :
    (lib : JsonLib) (s s' : Market)
    → s'.apps ≡ s.apps
    → s'.cache ≡ s.cache
    → Coherent lib s
    → Coherent lib s'
same-Coherent lib s s' apps cache h k =
    subst (λ (c : Cache). EntryAgrees lib (c k) (get_by_id k s'.apps)) (sym cache)
      (subst (λ (rows : List App). EntryAgrees lib (s.cache k) (get_by_id k rows)) (sym apps) (h k))

module _ (lib : JsonLib) (uuids : Parsers) (at : Moment) (up : at.redis ≡ answering) where
  pub update_app-Coherent :
      (app_id : Text) (user_id : Option Text) (body : Option UpdateAppRequest) (s : Market)
      → Coherent lib s
      → Coherent lib (update_app uuids at app_id user_id body s).1
  unfolding update_app
  update_app-Coherent app_id user_id body s h =
      elim (Reply-cases (check_update uuids app_id user_id body s.apps)) [
        | inr (status, code, refusal) ↦ rw (refusal, update_app) h
        | inl ((id, req), passes) ↦
            rw (passes, update_app)
              (write_fields-Coherent lib at id (updates_of at.now req) _ s up h)
      ]

  pub off_shelf_app-Coherent :
      (app_id : Text) (user_id : Option Text) (s : Market)
      → Coherent lib s
      → Coherent lib (off_shelf_app uuids at app_id user_id s).1
  unfolding off_shelf_app
  off_shelf_app-Coherent app_id user_id s h =
      elim (Reply-cases (check_owner uuids app_id user_id s.apps)) [
        | inr (status, code, refusal) ↦ rw (refusal, off_shelf_app) h
        | inl ((id, a), passes) ↦
            rw (passes, off_shelf_app) (write_fields-Coherent lib at id (off_shelf at.now) _ s up h)
      ]

  pub delete_app-Coherent :
      (referenced removes : Bool) (app_id : Text) (user_id : Option Text) (s : Market)
      → Coherent lib s
      → Coherent lib (delete_app uuids at referenced removes app_id user_id s).1
  unfolding delete_app delete
  delete_app-Coherent referenced removes app_id user_id s h =
      elim (Reply-cases (check_owner uuids app_id user_id s.apps)) [
        | inr (status, code, refusal) ↦ rw (refusal, delete_app) h
        | inl ((id, a), passes) ↦ elim (Bool-cases referenced) [
          | inl kept ↦ rw (passes, kept, delete_app) h
          | inr free ↦
              let t =
                invalidate_app_detail_cache at id
                  (record s { apps = where_rows (not_app id) s.apps }) in
              let (apps, cache) = remove_file-keeps removes (object_name_of a) t in
              rw (passes, free, delete_app)
                (same-Coherent lib t (remove_file removes (object_name_of a) t) apps cache (
                  written-Coherent lib at id s (where_rows (not_app id) s.apps) up h
                    (λ k ne. get_by_id-delete k id s.apps ne)))
        ]
      ]

pub create-others :
    (a : App) (apps : List App) {apps' : List App} (k : ℕ)
    → create a apps ≡ ok apps'
    → (k ≢ a.app_id → get_by_id k apps' ≡ get_by_id k apps)
      × (get_by_id a.app_id apps ≡ none)
      × (apps' ≡ a ∷ apps)
unfolding create
create-others a apps {apps'} k made = elim (Option-cases (get_by_id a.app_id apps)) [
  | inr (b, taken) ↦ ground (arith, made)
  | inl free ↦ elim (Option-cases (find_by (clashes a) apps)) [
    | inr (b, clash) ↦ ground (arith, made)
    | inl alone ↦
        let e : a ∷ apps ≡ apps' = ground (arith, made) in
        (
          λ ne.
              subst (λ (x : List App). get_by_id k x ≡ get_by_id k apps) e
                (get_by_id-cons k a apps ne),
          free,
          sym e,
        )
  ]
]

-- An insert, with no other request between the lookup and the insert.
insert_app-Coherent :
    (lib : JsonLib) (at : Moment) (d : Draw) (p : Prepared) (a : App) (name : Text) (s : Market)
    → at.redis ≡ answering
    → Coherent lib s
    → Coherent lib (insert_app at d p a name s).1
unfolding insert_app create
insert_app-Coherent lib at d p a name s up h = elim (Result-cases (create a s.apps)) [
  | inl (apps, made) ↦
      rw (made, insert_app)
        (written-Coherent lib at a.app_id s apps up h
          (λ k ne. (create-others a s.apps k made).0 ne))
  | inr (e, failed) ↦
      let t = remove_file d.removes name s in
      let (apps, cache) = remove_file-keeps d.removes name s in
      let kept = same-Coherent lib s t apps cache h in
      elim (Option-cases (existing p s.apps)) [
        | inl missing ↦ rw (failed, missing, insert_app) kept
        | inr (b, found) ↦ rw (failed, found, insert_app) kept
      ]
]

-- A draw with no other request in between.
abbrev pub alone : Draw → Draw
alone d = record d { meanwhile = λ apps. apps }

pub publish_app-Coherent :
    (json : JsonLib) (lib : PublishLib) (at : Moment) (d : Draw) (req : PublishInput) (s : Market)
    → at.redis ≡ answering
    → Coherent json s
    → Coherent json (publish_app lib at (alone d) req s).1
unfolding publish_app publish_new upload_app
publish_app-Coherent json lib at d req s up h = elim (Reply-cases (check_publish lib req)) [
  | inr (status, code, refusal) ↦ rw (refusal, publish_app) h
  | inl (p, passes) ↦ elim (Option-cases (existing p s.apps)) [
    | inr (a, found) ↦ rw (passes, found, publish_app) h
    | inl new ↦ elim (Reply-cases (check_lock at (alone d) p >> check_file lib (alone d) p.file)) [
      | inr (status, code, refusal) ↦ rw (passes, new, refusal, publish_app, publish_new) h
      | inl ((e, content_type), typed) ↦ elim (Option-cases d.uploaded) [
        | inl failed ↦ rw (passes, new, typed, failed, publish_app, publish_new, upload_app) h
        | inr (etag, uploaded) ↦
            let name = object_name lib p.developer_id d.app_id e in
            rw (passes, new, typed, uploaded, publish_app, publish_new, upload_app)
              (insert_app-Coherent json at (alone d) p
                (new_app lib at.now d.app_id e content_type etag p) name (add_object name s) up h)
      ]
    ]
  ]
]
