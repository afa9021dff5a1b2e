-- ===== src/Market/Publish.antt =====
-- services/market/app/market.go, PublishApp: the upload of a file and the row of its app. Texts are of
-- code points, so they are valid UTF-8; the bytes of a file are numbers.
use my_go_market.Prelude.{
  ℕ, zero, suc, ◌+◌, ◌*◌, ◌/◌, ◌%◌, Bool, true, false, not, Option, none, some, List, [], ◌∷◌, ◌++◌,
  ◌==◌, ◌&&◌, ◌||◌, if◌then◌else◌, ltb, length, take,
}
use my_go_market.Prelude.Text.{Text, codes, text_eq, is_empty, trim_space, to_lower}
use my_go_market.Errors.{ok, err}
use my_go_market.Web.{Reply, refused, answered, ◌>>=◌, ◌>>◌, or_refuse, refuse_if, Parsers}
use my_go_market.Market.Store.{
  App, text_value, other_value, get_by_developer_id_and_idempotency_key, create,
}
use my_go_market.Redis.{Redis, absent, silent, answering}
use my_go_market.Market.Cache.{Market, Moment, invalidate_app_detail_cache}
use my_go_market.Market.Handlers.{remove_file}

abbrev pub slash : ℕ
slash = b'/'

-- A number in decimal digits, as JSON has it, on fuel: a number has no more digits than itself, and one.
unfoldable digits_on : (fuel : ℕ) → ℕ → Text
digits_on zero n = []
digits_on (suc fuel) n =
    let rest = digits_on fuel (n / 10) in
    let last = b'0' + n % 10 in if ltb n 10 then last ∷ [] else rest ++ (last ∷ [])

unfoldable pub digits : ℕ → Text
unfolding digits_on
digits n = digits_on (suc n) n

-- `filepath.Base` and `filepath.Ext`, for the separator `/`.
unfoldable pub strip_slashes : Text → Text
strip_slashes [] = []
strip_slashes (c ∷ cs) =
    let rest = strip_slashes cs in if c == slash && is_empty rest then [] else c ∷ rest

unfoldable pub has_slash : Text → Bool
has_slash [] = false
has_slash (c ∷ cs) = c == slash || has_slash cs

unfoldable pub last_element : Text → Text
last_element [] = []
last_element (c ∷ cs) = let rest = last_element cs in if has_slash (c ∷ cs) then rest else c ∷ cs

unfoldable pub base : Text → Text
base [] = codes "."
base (c ∷ cs) =
    let stripped = strip_slashes (c ∷ cs) in
    if is_empty stripped then codes "/" else last_element stripped

unfoldable pub ext : Text → Text
ext [] = []
ext (c ∷ cs) =
    let rest = ext cs in if is_empty rest && (c == b'.' && not (has_slash cs)) then c ∷ cs else rest

-- No slash of either kind and no NUL, in the last two tests of `validateUploadedFilename`.
unfoldable pub has_separator : Text → Bool
has_separator [] = false
has_separator (c ∷ cs) = c == slash || (c == 0x5c || (c == 0 || has_separator cs))

unfoldable pub validate_uploaded_filename : (filename : Text) → Bool
validate_uploaded_filename filename =
    let b = base filename in
    not (text_eq b (codes ".") || (text_eq b (codes "/") || is_empty (trim_space b)))
    && (text_eq b filename && not (has_separator filename))

-- The bytes of a text in UTF-8.
unfoldable pub byte_length : Text → ℕ
byte_length [] = 0
byte_length (c ∷ cs) =
    (if ltb c 0x80 then 1 else if ltb c 0x800 then 2 else if ltb c 0x10000 then 3 else 4)
    + byte_length cs

-- `allowedAppFileTypes`
unfoldable pub allowed_type : (ext : Text) → Option Text
allowed_type e =
    if text_eq e (codes ".zip")
    then some (codes "application/zip")
    else if text_eq e (codes ".gz") || text_eq e (codes ".tgz")
    then some (codes "application/gzip")
    else none

-- The type of a file, where it fits the extension and the detected type.
unfoldable pub allowed_content_type : (ext detected : Text) → Option Text
allowed_content_type e detected = elim (allowed_type e) [
  | none ↦ none
  | some allowed ↦
      if text_eq detected allowed
        || (text_eq allowed (codes "application/gzip")
            && text_eq detected (codes "application/x-gzip"))
      then some allowed
      else if text_eq e (codes ".zip") && text_eq detected (codes "application/octet-stream")
      then some allowed
      else none
]

pub record Upload : Type 0 where
  pub filename : Text
  pub content : List ℕ

-- `PublishAppReq`, bound: its name is not empty.
pub record PublishAppRequest : Type 0 where
  pub name : Text
  pub category : Text
  pub tags : List Text
  pub status : Text

-- A request: the form, the file, the header Idempotency-Key and the field idempotency_key.
pub record PublishInput : Type 0 where
  pub user_id : Option Text
  pub form : Option PublishAppRequest
  pub file : Option Upload
  pub header_key : Text
  pub form_key : Text

-- What the code calls of google/uuid, net/http and crypto/sha256 (in hexadecimal).
pub record PublishLib : Type 0 where
  pub uuids : Parsers
  pub uuid_string : ℕ → Text
  pub detect_content_type : List ℕ → Text
  pub sha256 : List ℕ → Text

-- What a publication meets: the id it draws, whether the file can be saved, the tag of the upload or
-- none if it fails, whether Minio removes, whether another request holds the lock, and what other
-- requests do to the table between its lookup and its insert.
pub record Draw : Type 0 where
  pub app_id : ℕ
  pub saved : Bool
  pub uploaded : Option Text
  pub removes : Bool
  pub locked : Bool
  pub meanwhile : List App → List App

-- A request that passed the checks.
pub record Prepared : Type 0 where
  pub developer_id : ℕ
  pub form : PublishAppRequest
  pub file : Upload
  pub key : Text

pub record Published : Type 0 where
  pub app_id : ℕ
  pub idempotent : Bool

abbrev pub request_key : PublishInput → Text
request_key req =
    if is_empty (trim_space req.header_key)
    then trim_space req.form_key
    else trim_space req.header_key

-- 100 MiB
abbrev pub max_file_size : ℕ
max_file_size = 100 * 1024 * 1024

-- `acquirePublishLock`: none is an error.
unfoldable pub acquire_publish_lock : Redis → (locked : Bool) → Option Bool
acquire_publish_lock redis locked = elim redis [
  | absent ↦ some true
  | silent ↦ none
  | answering ↦ some (not locked)
]

-- The lock, where there is a key.
unfoldable pub check_lock : Moment → Draw → Prepared → Reply (Unit {0})
check_lock at d p = if is_empty p.key then answered tt else do
  free ← or_refuse (acquire_publish_lock at.redis d.locked) 500 (codes "UPLOAD_LOCK_FAILED")
  refuse_if (not free) 409 (codes "DUPLICATE_UPLOAD_IN_PROGRESS")

abbrev pub existing : Prepared → List App → Option App
existing p apps =
    if is_empty p.key
    then none
    else get_by_developer_id_and_idempotency_key p.developer_id p.key apps

abbrev pub found_published : App → Published
found_published a = record { app_id = a.app_id; idempotent = true }

abbrev pub add_object : Text → Market → Market
add_object name s = record s { objects = λ k. if text_eq k name then true else s.objects k }

-- The row, and the removal of the object where it is refused.
unfoldable pub insert_app :
    Moment → Draw → Prepared → App → (name : Text) → Market → Reply Published × Market
insert_app at d p a name s = elim (create a s.apps) [
  | ok apps ↦ (
    answered (record { app_id = a.app_id; idempotent = false }),
    invalidate_app_detail_cache at a.app_id (record s { apps = apps }),
  )
  | err _ ↦
      let s' = remove_file d.removes name s in
      elim (existing p s.apps) [
        | some b ↦ (answered (found_published b), s')
        | none ↦ (refused 500 (codes "APP_CREATE_FAILED"), s')
      ]
]

module _ (lib : PublishLib) where
  -- The checks up to the key.
  unfoldable pub check_publish : PublishInput → Reply Prepared
  check_publish req = do
    user_id ← or_refuse req.user_id 401 (codes "UNAUTHORIZED")
    dev ← or_refuse (lib.uuids.parse_uuid user_id) 401 (codes "INVALID_USER_ID")
    form ← or_refuse req.form 400 (codes "BAD_REQUEST")
    file ← or_refuse req.file 400 (codes "APP_FILE_REQUIRED")
    refuse_if (not (validate_uploaded_filename file.filename)) 400 (codes "INVALID_FILENAME")
    refuse_if (ltb max_file_size (length file.content)) 400 (codes "FILE_TOO_LARGE")
    refuse_if (ltb 128 (byte_length (request_key req))) 400 (codes "IDEMPOTENCY_KEY_TOO_LONG")
    answered (record { developer_id = dev; form = form; file = file; key = request_key req })

  -- The extension and the type of the file.
  unfoldable pub check_file : Draw → Upload → Reply (Text × Text)
  check_file d file =
      let e = to_lower (ext file.filename) in
      do
        _ ← or_refuse (allowed_type e) 400 (codes "UNSUPPORTED_FILE_TYPE")
        refuse_if (not d.saved) 500 (codes "TEMP_SAVE_FAILED")
        content_type ←
            or_refuse (allowed_content_type e (lib.detect_content_type (take 512 file.content))) 400
              (codes "FILE_TYPE_MISMATCH")
        answered (e, content_type)

  unfoldable pub object_name : (developer_id app_id : ℕ) → (ext : Text) → Text
  object_name dev id e =
      codes "apps/"
      ++ (lib.uuid_string dev ++ (slash ∷ (lib.uuid_string id ++ (codes "/app" ++ e))))

  unfoldable pub new_app : (now app_id : ℕ) → (ext content_type etag : Text) → Prepared → App
  new_app now id e content_type etag p = record {
    app_id = id;
    name = p.form.name;
    developer_id = p.developer_id;
    category = p.form.category;
    tags = p.form.tags;
    metadata =
        (codes "file_name", text_value (base p.file.filename))
        ∷ (codes "object_name", text_value (object_name p.developer_id id e))
        ∷ (codes "file_size", other_value (some (digits (length p.file.content))))
        ∷ (codes "content_type", text_value content_type)
        ∷ (codes "sha256", text_value (lib.sha256 p.file.content))
        ∷ (codes "etag", text_value etag)
        ∷ (codes "version", text_value (codes "1.0.0"))
        ∷ (codes "idempotency_key", text_value p.key)
        ∷ [];
    status = (if is_empty p.form.status then codes "published" else p.form.status);
    create_at = now;
    update_at = now;
  }

  -- The upload and what follows.
  unfoldable pub upload_app :
      Moment → Draw → Prepared → (file_type : Text × Text) → Market → Reply Published × Market
  upload_app at d p (e, content_type) s =
      let name = object_name p.developer_id d.app_id e in
      elim d.uploaded [
        | none ↦ (refused 500 (codes "MINIO_UPLOAD_FAILED"), s)
        | some etag ↦
            insert_app at d p (new_app at.now d.app_id e content_type etag p) name
              (add_object name (record s { apps = d.meanwhile s.apps }))
      ]

  unfoldable pub publish_new : Moment → Draw → Prepared → Market → Reply Published × Market
  publish_new at d p s = elim (check_lock at d p >> check_file d p.file) [
    | refused status code ↦ (refused status code, s)
    | answered file_type ↦ upload_app at d p file_type s
  ]

  unfoldable pub publish_app : Moment → Draw → PublishInput → Market → Reply Published × Market
  publish_app at d req s = elim (check_publish req) [
    | refused status code ↦ (refused status code, s)
    | answered p ↦ elim (existing p s.apps) [
      | some a ↦ (answered (found_published a), s)
      | none ↦ publish_new at d p s
    ]
  ]
