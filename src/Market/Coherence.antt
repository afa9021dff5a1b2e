-- ===== src/Market/Coherence.antt =====
-- The cache of app details and the table of apps (market.go, getAppDetailCached and
-- invalidateAppDetailCache).
use my_go_market.Prelude.{
  ℕ, ◌+◌, Bool, true, false, Option, none, some, List, ◌≡◌, ◌≢◌, refl, ◌==◌, ◌⊎◌, inl, inr,
  if◌then◌else◌, arith, sym, subst, Bool-cases, Option-cases, ==_iff, ltb,
}
use my_go_market.Prelude.Text.{Text, text_eq, text_eq_refl}
use my_go_market.Market.Store.{App, get_by_id}
use my_go_market.Redis.{Redis, absent, silent, answering}
use my_go_market.Market.Cache.{
  JsonLib, Entry, Cache, Market, Moment, negative_marker, put, set_entry,
  invalidate_app_detail_cache, live, get_entry, load_app, get_app_detail_cached,
}

-- What is relied on of encoding/json: a text that an app was written to reads back as that app, and
-- is not the marker of a missing one.
pub record IsFaithful (lib : JsonLib) : Type 0 where
  pub reads_back : (a : App) (t : Text) → lib.marshal a ≡ some t → lib.unmarshal t ≡ some a
  pub not_marker : (a : App) (t : Text) → lib.marshal a ≡ some t → text_eq t negative_marker ≡ false

-- A cached text says what the table has: the marker where there is no row, or else the row.
abbrev pub Agrees : JsonLib → Text → Option App → Type 0
Agrees lib t row =
    ((text_eq t negative_marker ≡ true) × (row ≡ none))
    ⊎ ((text_eq t negative_marker ≡ false)
        × ((a : App) × (lib.unmarshal t ≡ some a) × (row ≡ some a)))

abbrev pub EntryAgrees : JsonLib → Option Entry → Option App → Type 0
EntryAgrees lib none row = Unit {0}
EntryAgrees lib (some e) row = Agrees lib e.payload row

-- Every entry, live or not, agrees with the table.
abbrev pub Coherent : JsonLib → Market → Type 0
Coherent lib s = (id : ℕ) → EntryAgrees lib (s.cache id) (get_by_id id s.apps)

put-Agrees :
    (lib : JsonLib) (id : ℕ) (v : Option Entry) (c : Cache) (apps : List App) (k : ℕ)
    → EntryAgrees lib v (get_by_id id apps)
    → (k ≢ id → EntryAgrees lib (c k) (get_by_id k apps))
    → EntryAgrees lib (put id v c k) (get_by_id k apps)
put-Agrees lib id v c apps k new old = elim (Bool-cases (k == id)) [
  | inl same ↦
      subst (λ (b : Bool). EntryAgrees lib (if b then v else c k) (get_by_id k apps)) (sym same)
        (subst (λ i. EntryAgrees lib v (get_by_id i apps)) (sym ((==_iff k id).0 same)) new)
  | inr other ↦
      subst (λ (b : Bool). EntryAgrees lib (if b then v else c k) (get_by_id k apps)) (sym other)
        (old (λ e. ground (arith, ==_iff k id)))
]

set_entry-Coherent :
    (lib : JsonLib) (at : Moment) (id : ℕ) (t : Text) (ttl : ℕ) (s : Market)
    → Agrees lib t (get_by_id id s.apps)
    → Coherent lib s
    → Coherent lib (set_entry at id t ttl s)
unfolding set_entry
set_entry-Coherent lib at id t ttl s new h = by_redis at.redis refl
  where
    by_redis : (r : Redis) → at.redis ≡ r → Coherent lib (set_entry at id t ttl s)
    by_redis absent e = rw e h
    by_redis silent e = rw e h
    by_redis answering e = rw e (λ k.
        put-Agrees lib id (some (record { payload = t; gone_at = at.now + ttl })) s.cache s.apps k
          new (λ _. h k))

-- Without the entry of an app, the table may change in that app's row.
pub invalidate-Coherent :
    (lib : JsonLib) (at : Moment) (id : ℕ) (s : Market)
    → at.redis ≡ answering
    → ((k : ℕ) → k ≢ id → EntryAgrees lib (s.cache k) (get_by_id k s.apps))
    → Coherent lib (invalidate_app_detail_cache at id s)
unfolding invalidate_app_detail_cache
invalidate-Coherent lib at id s up old =
    rw up (λ k. put-Agrees lib id none s.cache s.apps k tt (old k))

invalidate-keeps :
    (lib : JsonLib) (at : Moment) (id : ℕ) (s : Market)
    → Coherent lib s
    → Coherent lib (invalidate_app_detail_cache at id s)
      × ((invalidate_app_detail_cache at id s).apps ≡ s.apps)
unfolding invalidate_app_detail_cache
invalidate-keeps lib at id s h = by_redis at.redis refl
  where
    by_redis :
        (r : Redis)
        → at.redis ≡ r
        → Coherent lib (invalidate_app_detail_cache at id s)
          × ((invalidate_app_detail_cache at id s).apps ≡ s.apps)
    by_redis absent e = rw e (h, refl)
    by_redis silent e = rw e (h, refl)
    by_redis answering e = rw e (λ k. put-Agrees lib id none s.cache s.apps k tt (λ _. h k), refl)

pub invalidate-apps :
    (at : Moment) (id : ℕ) (s : Market) → (invalidate_app_detail_cache at id s).apps ≡ s.apps
unfolding invalidate_app_detail_cache
invalidate-apps at id s = by_redis at.redis refl
  where
    by_redis : (r : Redis) → at.redis ≡ r → (invalidate_app_detail_cache at id s).apps ≡ s.apps
    by_redis absent e = rw e refl
    by_redis silent e = rw e refl
    by_redis answering e = rw e refl

pub invalidate-objects :
    (at : Moment) (id : ℕ) (s : Market) → (invalidate_app_detail_cache at id s).objects ≡ s.objects
unfolding invalidate_app_detail_cache
invalidate-objects at id s = by_redis at.redis refl
  where
    by_redis :
        (r : Redis) → at.redis ≡ r → (invalidate_app_detail_cache at id s).objects ≡ s.objects
    by_redis absent e = rw e refl
    by_redis silent e = rw e refl
    by_redis answering e = rw e refl

pub set_entry-apps :
    (at : Moment) (id : ℕ) (t : Text) (ttl : ℕ) (s : Market)
    → (set_entry at id t ttl s).apps ≡ s.apps
unfolding set_entry
set_entry-apps at id t ttl s = by_redis at.redis refl
  where
    by_redis : (r : Redis) → at.redis ≡ r → (set_entry at id t ttl s).apps ≡ s.apps
    by_redis absent e = rw e refl
    by_redis silent e = rw e refl
    by_redis answering e = rw e refl

-- A read returns the row of the table, and keeps the table and the agreement with it.
pub record ReadsTable (lib : JsonLib) (id : ℕ) (s : Market) (r : Option App × Market) : Type 0 where
  pub row : r.0 ≡ get_by_id id s.apps
  pub same_apps : r.1.apps ≡ s.apps
  pub coherent : Coherent lib r.1

load_app_lem :
    (lib : JsonLib) (at : Moment) (id : ℕ) (s : Market)
    → IsFaithful lib
    → Coherent lib s
    → ReadsTable lib id s (load_app lib at id s)
unfolding load_app
load_app_lem lib at id s f h = elim (Option-cases (get_by_id id s.apps)) [
  | inl missing ↦
      rw (missing, load_app)
        (record {
          row = sym missing;
          same_apps = set_entry-apps at id negative_marker 30 s;
          coherent =
              set_entry-Coherent lib at id negative_marker 30 s
                (inl (text_eq_refl negative_marker, missing)) h;
        })
  | inr (a, found) ↦ elim (Option-cases (lib.marshal a)) [
    | inl unwritten ↦
        rw (found, unwritten, load_app) (record { row = sym found; same_apps = refl; coherent = h })
    | inr (t, written) ↦
        rw (found, written, load_app)
          (record {
            row = sym found;
            same_apps = set_entry-apps at id t _ s;
            coherent =
                set_entry-Coherent lib at id t _ s
                  (inr (f.not_marker a t written, (a, f.reads_back a t written, found))) h;
          })
  ]
]

entry-Agrees :
    (lib : JsonLib) (at : Moment) (id : ℕ) (s : Market) {t : Text}
    → Coherent lib s
    → get_entry at id s ≡ some t
    → Agrees lib t (get_by_id id s.apps)
unfolding get_entry
entry-Agrees lib at id s {t} h got = by_redis at.redis refl
  where
    by_live :
        (o : Option Entry)
        → EntryAgrees lib o (get_by_id id s.apps)
        → live at.now o ≡ some t
        → Agrees lib t (get_by_id id s.apps)
    by_live none a l = cc
    by_live (some e) a l = elim (Bool-cases (ltb at.now e.gone_at)) [
      | inl fresh ↦ subst (λ x. Agrees lib x (get_by_id id s.apps)) (ground (arith, l)) a
      | inr stale ↦ ground (arith, l)
    ]

    by_redis : (r : Redis) → at.redis ≡ r → Agrees lib t (get_by_id id s.apps)
    by_redis absent e = ground (arith, got)
    by_redis silent e = ground (arith, got)
    by_redis answering e = by_live (s.cache id) (h id) (ground (arith, got))

pub get_cached_lem :
    (lib : JsonLib) (at : Moment) (id : ℕ) (s : Market)
    → IsFaithful lib
    → Coherent lib s
    → ReadsTable lib id s (get_app_detail_cached lib at id s)
unfolding get_app_detail_cached
get_cached_lem lib at id s f h = elim (Option-cases (get_entry at id s)) [
  | inl miss ↦ rw (miss, get_app_detail_cached) (load_app_lem lib at id s f h)
  | inr (t, hit) ↦ elim (entry-Agrees lib at id s h hit) [
    | inl (marker, missing) ↦
        rw (hit, marker, get_app_detail_cached)
          (record { row = sym missing; same_apps = refl; coherent = h })
    | inr (text, (a, reads, found)) ↦
        rw (hit, text, reads, get_app_detail_cached)
          (record { row = sym found; same_apps = refl; coherent = h })
  ]
]
