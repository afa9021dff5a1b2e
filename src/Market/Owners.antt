-- ===== src/Market/Owners.antt =====
-- Whose apps the handlers of market.go change.
use my_go_market.Prelude.{
  ℕ, Bool, true, false, not, Option, some, List, ◌≡◌, ◌≢◌, refl, ◌==◌, inl, inr, arith, ap, sym,
  ◌∙◌, Option-cases, Bool-cases, ==_iff,
}
use my_go_market.Prelude.Text.{Text, codes, text_eq}
use my_go_market.Errors.{Result-cases}
use my_go_market.Table.{where_rows}
use my_go_market.Web.{
  answered, Reply-cases, answered-bind, answered-injective, or_refuse, refuse_if, Parsers,
  or_refuse-answered,
}
use my_go_market.Market.Store.{App, Updates, get_by_id, update_fields, delete, not_app}
use my_go_market.Market.Cache.{
  JsonLib, Market, Moment, load_app, negative_marker, get_entry, invalidate_app_detail_cache,
  get_app_detail_cached,
}
use my_go_market.Market.Handlers.{
  UpdateAppRequest, updates_of, off_shelf, object_name_of, write_fields, current_developer_id,
  ensure_app_owner, check_owner, check_update, update_app, off_shelf_app, delete_app,
}
use mathlib.Core.Option
use my_go_market.Market.Coherence.{set_entry-apps, invalidate-apps}
use my_go_market.Market.Writes.{get_by_id-delete, update_fields-others, remove_file-keeps}

pub refuse_if-answered :
    (b : Bool) (status : ℕ) (code : Text) {u : Unit {0}}
    → refuse_if b status code ≡ answered u
    → b ≡ false
refuse_if-answered true status code h = cc
refuse_if-answered false status code h = refl

-- The row that a handler was let to change, and its developer.
check_owner_lem :
    (uuids : Parsers) (app_id : Text) (user_id : Option Text) (apps : List App) {id : ℕ} {a : App}
    → check_owner uuids app_id user_id apps ≡ answered (id, a)
    → (get_by_id id apps ≡ some a) × (current_developer_id uuids user_id ≡ some a.developer_id)
unfolding check_owner ensure_app_owner
check_owner_lem uuids app_id user_id apps {id} {a} h =
    let (id1, _, h1) =
      answered-bind (or_refuse (uuids.parse_uuid app_id) 400 (codes "INVALID_APP_ID")) _ h in
    let (dev, known, h2) =
      answered-bind (or_refuse (current_developer_id uuids user_id) 401 (codes "UNAUTHORIZED")) _
        h1 in
    let (b, owned, h3) = answered-bind (ensure_app_owner uuids id1 dev apps) _ h2 in
    let (c, there, h4) =
      answered-bind (or_refuse (get_by_id id1 apps) 404 (codes "APP_NOT_FOUND")) _ owned in
    let (_, right, h5) =
      answered-bind (refuse_if (not (c.developer_id == dev)) 403 (codes "FORBIDDEN")) _ h4 in
    let same : c ≡ b = answered-injective h5 in
    let found = or_refuse-answered (get_by_id id1 apps) 404 (codes "APP_NOT_FOUND") there in
    let dev_eq : c.developer_id ≡ dev = (==_iff c.developer_id dev).0 (
      ground
        (arith, refuse_if-answered (not (c.developer_id == dev)) 403 (codes "FORBIDDEN") right)) in
    let e : (id1, b) ≡ (id, a) = answered-injective h3 in
    let it : c ≡ a = same ∙ ap (λ (x : ℕ × App). x.1) e in
    (
      ap (λ i. get_by_id i apps) (sym (ap (λ (x : ℕ × App). x.0) e)) ∙ found ∙ ap some it,
      or_refuse-answered (current_developer_id uuids user_id) 401 (codes "UNAUTHORIZED") known
          ∙ ap some (sym dev_eq)
          ∙ ap (λ (x : App). some x.developer_id) it,
    )

check_update_lem :
    (uuids : Parsers) (app_id : Text) (user_id : Option Text) (body : Option UpdateAppRequest)
    (apps : List App) {id : ℕ} {req : UpdateAppRequest}
    → check_update uuids app_id user_id body apps ≡ answered (id, req)
    → (a : App) × (check_owner uuids app_id user_id apps ≡ answered (id, a))
unfolding check_update
check_update_lem uuids app_id user_id body apps {id} h =
    let (_, _, h1) =
      answered-bind (or_refuse (uuids.parse_uuid app_id) 400 (codes "INVALID_APP_ID")) _ h in
    let (_, _, h2) = answered-bind (or_refuse body 400 (codes "BAD_REQUEST")) _ h1 in
    let ((id1, a), owned, h3) = answered-bind (check_owner uuids app_id user_id apps) _ h2 in
    (
      a,
      owned
          ∙ ap (λ i. answered (i, a))
              (ap (λ (x : ℕ × UpdateAppRequest). x.0) (answered-injective h3)),
    )

load_app-apps :
    (lib : JsonLib) (at : Moment) (id : ℕ) (s : Market) → (load_app lib at id s).1.apps ≡ s.apps
unfolding load_app
load_app-apps lib at id s = elim (Option-cases (get_by_id id s.apps)) [
  | inl missing ↦ rw (missing, load_app) (set_entry-apps at id _ 30 s)
  | inr (a, found) ↦ elim (Option-cases (lib.marshal a)) [
    | inl unwritten ↦ rw (found, unwritten, load_app) refl
    | inr (t, written) ↦ rw (found, written, load_app) (set_entry-apps at id t _ s)
  ]
]

pub get_cached-apps :
    (lib : JsonLib) (at : Moment) (id : ℕ) (s : Market)
    → (get_app_detail_cached lib at id s).1.apps ≡ s.apps
unfolding get_app_detail_cached
get_cached-apps lib at id s = elim (Option-cases (get_entry at id s)) [
  | inl miss ↦ rw (miss, get_app_detail_cached) (load_app-apps lib at id s)
  | inr (t, hit) ↦ elim (Bool-cases (text_eq t negative_marker)) [
    | inl marker ↦ rw (hit, marker, get_app_detail_cached) refl
    | inr text ↦ elim (Option-cases (lib.unmarshal t)) [
      | inr (a, read) ↦ rw (hit, text, read, get_app_detail_cached) refl
      | inl bad ↦
          rw (hit, text, bad, get_app_detail_cached)
            (load_app-apps lib at id (invalidate_app_detail_cache at id s)
              ∙ invalidate-apps at id s)
    ]
  ]
]

-- The row of an app stays.
abbrev pub Keeps : ℕ → App → List App → List App → Type 0
Keeps k a apps apps' = get_by_id k apps ≡ some a → get_by_id k apps' ≡ some a

-- A row of another developer is not the row that a handler was let to change.
other_row :
    (uuids : Parsers) (app_id : Text) (user_id : Option Text) (apps : List App) {id : ℕ} {b : App}
    (k : ℕ) (a : App)
    → check_owner uuids app_id user_id apps ≡ answered (id, b)
    → current_developer_id uuids user_id ≢ some a.developer_id
    → get_by_id k apps ≡ some a
    → k ≢ id
other_row uuids app_id user_id apps {id} {b} k a h other row e =
    let (found, dev) = check_owner_lem uuids app_id user_id apps h in
    let same : some a ≡ some b = sym row ∙ ap (λ i. get_by_id i apps) e ∙ found in
    other (dev ∙ ap (λ (o : Option App). Option.map (λ (x : App). x.developer_id) o) (sym same))

write_fields-Keeps :
    (at : Moment) (id : ℕ) (u : Updates) (code : Text) (s : Market) (k : ℕ) (a : App)
    → k ≢ id
    → Keeps k a s.apps (write_fields at id u code s).1.apps
unfolding write_fields
write_fields-Keeps at id u code s k a ne row = elim (Result-cases (update_fields id u s.apps)) [
  | inr (e, failed) ↦ rw (failed, write_fields) row
  | inl ((b, apps), done) ↦
      rw (done, write_fields)
        (ap (get_by_id k) (invalidate-apps at id (record s { apps = apps }))
          ∙ update_fields-others id u s.apps k done ne
          ∙ row)
]

module _ (uuids : Parsers) (at : Moment) (k : ℕ) (a : App) where
  pub update_app-Keeps :
      (app_id : Text) (user_id : Option Text) (body : Option UpdateAppRequest) (s : Market)
      → current_developer_id uuids user_id ≢ some a.developer_id
      → Keeps k a s.apps (update_app uuids at app_id user_id body s).1.apps
  unfolding update_app
  update_app-Keeps app_id user_id body s other row =
      elim (Reply-cases (check_update uuids app_id user_id body s.apps)) [
        | inr (status, code, refusal) ↦ rw (refusal, update_app) row
        | inl ((id, req), passes) ↦
            let (b, owned) = check_update_lem uuids app_id user_id body s.apps passes in
            rw (passes, update_app)
              (write_fields-Keeps at id (updates_of at.now req) _ s k a
                (other_row uuids app_id user_id s.apps k a owned other row) row)
      ]

  pub off_shelf_app-Keeps :
      (app_id : Text) (user_id : Option Text) (s : Market)
      → current_developer_id uuids user_id ≢ some a.developer_id
      → Keeps k a s.apps (off_shelf_app uuids at app_id user_id s).1.apps
  unfolding off_shelf_app
  off_shelf_app-Keeps app_id user_id s other row =
      elim (Reply-cases (check_owner uuids app_id user_id s.apps)) [
        | inr (status, code, refusal) ↦ rw (refusal, off_shelf_app) row
        | inl ((id, b), owned) ↦
            rw (owned, off_shelf_app)
              (write_fields-Keeps at id (off_shelf at.now) _ s k a
                (other_row uuids app_id user_id s.apps k a owned other row) row)
      ]

  pub delete_app-Keeps :
      (referenced removes : Bool) (app_id : Text) (user_id : Option Text) (s : Market)
      → current_developer_id uuids user_id ≢ some a.developer_id
      → Keeps k a s.apps (delete_app uuids at referenced removes app_id user_id s).1.apps
  unfolding delete_app delete
  delete_app-Keeps referenced removes app_id user_id s other row =
      elim (Reply-cases (check_owner uuids app_id user_id s.apps)) [
        | inr (status, code, refusal) ↦ rw (refusal, delete_app) row
        | inl ((id, b), owned) ↦ elim (Bool-cases referenced) [
          | inl kept ↦ rw (owned, kept, delete_app) row
          | inr free ↦
              let apps = where_rows (not_app id) s.apps in
              let t = invalidate_app_detail_cache at id (record s { apps = apps }) in
              rw (owned, free, delete_app)
                (ap (get_by_id k) (
                    (remove_file-keeps removes (object_name_of b) t).0
                    ∙ invalidate-apps at id (record s { apps = apps }))
                  ∙ get_by_id-delete k id s.apps
                      (other_row uuids app_id user_id s.apps k a owned other row)
                  ∙ row)
        ]
      ]
