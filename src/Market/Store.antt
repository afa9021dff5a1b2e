-- ===== src/Market/Store.antt =====
-- services/market/domain/application.go and services/market/respository/app_respository.go: apps,
-- their table, and the table of their downloads by day.
use my_go_market.Prelude.{
  ℕ, ◌+◌, ◌-◌, ◌*◌, Bool, false, not, Option, none, some, List, [], ◌∷◌, ◌==◌, ◌&&◌, ◌||◌,
  if◌then◌else◌, length, take, drop,
}
use my_go_market.Prelude.Text.{Text, codes, text_eq, is_empty}
use my_go_market.Errors.{Result, ok, err, record_not_found, unique_violation}
use my_go_market.Table.{find_by, lookup, update, where_rows}

-- A value of a JSON object: a text, or any other value, by the text that PostgreSQL's `->>` shows for
-- it: none for null.
pub data Json : Type 0 where
  text_value : Text → Json
  other_value : (shown : Option Text) → Json

abbrev pub Metadata : Type 0
Metadata = List (Text × Json)

-- The value under a key.
unfoldable pub field : Text → Metadata → Option Json
field k [] = none
field k ((j, v) ∷ m) = if text_eq j k then some v else field k m

-- The text under a key; a value of another type has none.
abbrev pub as_text : Option Json → Option Text
as_text none = none
as_text (some (text_value t)) = some t
as_text (some (other_value shown)) = none

abbrev pub text_or_empty : Option Text → Text
text_or_empty none = []
text_or_empty (some t) = t

pub record App : Type 0 where
  pub app_id : ℕ
  pub name : Text
  pub developer_id : ℕ
  pub category : Text
  pub tags : List Text
  pub metadata : Metadata
  pub status : Text
  pub create_at : ℕ
  pub update_at : ℕ

abbrev pub app_key : App → ℕ
app_key a = a.app_id

-- A row of app_download_metrics.
pub record Metric : Type 0 where
  pub app_id : ℕ
  pub day : ℕ
  pub download_count : ℕ

-- `GetByID`
unfoldable pub get_by_id : (app_id : ℕ) → List App → Option App
get_by_id id apps = lookup app_key id apps

abbrev shown_text : Option Json → Option Text
shown_text none = none
shown_text (some (text_value t)) = some t
shown_text (some (other_value shown)) = shown

-- `metadata ->> 'idempotency_key'`, empty if there is none.
unfoldable pub stored_key : App → Text
stored_key a = text_or_empty (shown_text (field (codes "idempotency_key") a.metadata))

abbrev pub has_key : (developer_id : ℕ) → (key : Text) → App → Bool
has_key dev key a = a.developer_id == dev && text_eq (stored_key a) key

unfoldable pub get_by_developer_id_and_idempotency_key :
    (developer_id : ℕ) → (key : Text) → List App → Option App
get_by_developer_id_and_idempotency_key dev key apps = find_by (has_key dev key) apps

-- Another row with the key of this one, which the unique index over developers and keys refuses.
abbrev pub clashes : App → App → Bool
clashes a b =
    not (b.app_id == a.app_id)
    && (not (is_empty (stored_key a)) && has_key a.developer_id (stored_key a) b)

unfoldable pub create : App → List App → Result (List App)
create a apps = elim (get_by_id a.app_id apps) [
  | some _ ↦ err unique_violation
  | none ↦ elim (find_by (clashes a) apps) [ some _ ↦ err unique_violation | none ↦ ok (a ∷ apps) ]
]

-- The columns that an update names.
pub record Updates : Type 0 where
  pub name : Option Text
  pub category : Option Text
  pub tags : Option (List Text)
  pub metadata : Option Metadata
  pub status : Option Text
  pub update_at : ℕ

abbrev pub or_old {ℓ} : {A : Type ℓ} → Option A → A → A
or_old none old = old
or_old (some new) old = new

abbrev pub updated : Updates → App → App
updated u a = record a {
  name = or_old u.name a.name;
  category = or_old u.category a.category;
  tags = or_old u.tags a.tags;
  metadata = or_old u.metadata a.metadata;
  status = or_old u.status a.status;
  update_at = u.update_at;
}

-- `UpdateFields`, with the row as it is then read.
unfoldable pub update_fields : (app_id : ℕ) → Updates → List App → Result (App × List App)
update_fields id u apps = elim (get_by_id id apps) [
  | none ↦ err record_not_found
  | some a ↦ elim (find_by (clashes (updated u a)) apps) [
    | some _ ↦ err unique_violation
    | none ↦ ok (updated u a, update app_key id (updated u) apps)
  ]
]

abbrev pub not_app : (app_id : ℕ) → App → Bool
not_app id a = not (a.app_id == id)

-- `Delete`; a row that others refer to, without a cascade, stays.
unfoldable pub delete : (app_id : ℕ) → (referenced : Bool) → List App → Result (List App)
delete id referenced apps =
    if referenced then err unique_violation else ok (where_rows (not_app id) apps)

unfoldable pub mem : ℕ → List ℕ → Bool
mem k [] = false
mem k (n ∷ ns) = n == k || mem k ns

abbrev pub is_among : List ℕ → App → Bool
is_among ids a = mem a.app_id ids

unfoldable pub get_by_ids : List ℕ → List App → List App
unfolding where_rows
get_by_ids ids apps = where_rows (is_among ids) apps

-- The upsert of a day's count.
unfoldable pub increment_download_metric : (app_id day : ℕ) → List Metric → List Metric
increment_download_metric id day [] = record { app_id = id; day = day; download_count = 1 } ∷ []
increment_download_metric id day (m ∷ ms) =
    let rest = increment_download_metric id day ms in
    if m.app_id == id && m.day == day
    then record m { download_count = m.download_count + 1 } ∷ ms
    else m ∷ rest

-- The filters of `List`; `ilike` is the match of PostgreSQL, whether the name has the keyword inside.
abbrev pub listed : (ilike : Text → Text → Bool) → (keyword category status : Text) → App → Bool
listed ilike keyword category status a =
    (is_empty keyword || ilike a.name keyword)
    && ((is_empty category || text_eq a.category category)
        && (is_empty status || text_eq a.status status))

-- `List`: a page, and the number of rows of all pages.
unfoldable pub list :
    (ilike : Text → Text → Bool)
    → (page page_size : ℕ) → (keyword category status : Text) → List App
    → List App × ℕ
unfolding where_rows
list ilike page page_size keyword category status apps =
    let rows = where_rows (listed ilike keyword category status) apps in
    (take page_size (drop ((page - 1) * page_size) rows), length rows)
