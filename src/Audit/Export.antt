-- ===== src/Audit/Export.antt =====
-- common/audit/export.go: the export of audit events in batches, each from the cursor that the one
-- before it left. Times are numbers, and a zero time is none.
use my_go_market.Prelude.{
  ℕ, zero, suc, ◌+◌, ◌-◌, Bool, true, false, Option, none, some, List, [], ◌∷◌, ◌==◌, ◌&&◌, ◌||◌,
  if◌then◌else◌, ltb, leb, length, take,
}
use my_go_market.Prelude.Int.{ℤ, pos, negsuc}
use my_go_market.Prelude.Text.{Text, codes, text_eq, is_empty, trim_space}
use my_go_market.Table.{where_rows}
use my_go_market.Web.{Reply, answered, ◌>>=◌, or_refuse}

-- `auditEventRow`, its metadata as the text that is stored.
pub record EventRow : Type 0 where
  pub event_id : ℕ
  pub event_type : Text
  pub trace_id : Text
  pub actor_id : Text
  pub resource : Text
  pub metadata : Text
  pub error : Text
  pub created_at : ℕ

-- `exportCursor`
pub record Cursor : Type 0 where
  pub created_at : ℕ
  pub event_id : ℕ

-- `ExportFilter`; a limit of 0 is none.
pub record ExportFilter : Type 0 where
  pub event_type : Text
  pub from : Option ℕ
  pub to : Option ℕ
  pub cursor : Text
  pub limit : ℕ

-- What the code calls of encoding/json and encoding/base64 on cursors, of google/uuid and of time,
-- where none is an error.
pub record ExportLib : Type 0 where
  pub marshal : Cursor → Option Text
  pub unmarshal : Text → Option Cursor
  pub encode : Text → Text
  pub decode : Text → Option Text
  pub uuid_string : ℕ → Text
  pub format_time : ℕ → Text
  pub parse_rfc3339 : Text → Option ℕ
  pub parse_date : Text → Option ℕ

abbrev pub cursor_of : EventRow → Cursor
cursor_of r = record { created_at = r.created_at; event_id = r.event_id }

-- The order `created_at ASC, event_id ASC`, and the condition of a cursor.
unfoldable pub after : Cursor → EventRow → Bool
after c r =
    ltb c.created_at r.created_at || (c.created_at == r.created_at && ltb c.event_id r.event_id)

unfoldable pub insert_row : EventRow → List EventRow → List EventRow
insert_row x [] = x ∷ []
insert_row x (y ∷ ys) =
    let rest = insert_row x ys in if after (cursor_of x) y then x ∷ y ∷ ys else y ∷ rest

unfoldable pub in_order : List EventRow → List EventRow
in_order [] = []
in_order (x ∷ xs) = insert_row x (in_order xs)

abbrev at_least : Option ℕ → ℕ → Bool
at_least none t = true
at_least (some from) t = leb from t

abbrev at_most : Option ℕ → ℕ → Bool
at_most none t = true
at_most (some to) t = leb t to

abbrev pub after_cursor : Option Cursor → EventRow → Bool
after_cursor none r = true
after_cursor (some c) r = after c r

abbrev pub passes_filter : ExportFilter → EventRow → Bool
passes_filter f r =
    (is_empty f.event_type || text_eq r.event_type f.event_type)
    && (at_least f.from r.created_at && at_most f.to r.created_at)

-- `applyExportFilter`
unfoldable pub apply_export_filter : ExportFilter → Option Cursor → EventRow → Bool
apply_export_filter f c r = passes_filter f r && after_cursor c r

-- The rows of one batch.
unfoldable pub find_batch :
    ExportFilter → Option Cursor → (limit : ℕ) → List EventRow → List EventRow
unfolding where_rows
find_batch f c limit rows = take limit (where_rows (apply_export_filter f c) (in_order rows))

abbrev pub export_batch_size : ℕ
export_batch_size = 500

-- The size of the next batch; with a limit, `exported` is at most the limit.
unfoldable pub batch_limit : (limit exported : ℕ) → ℕ
batch_limit zero exported = export_batch_size
batch_limit (suc n) exported =
    if ltb (suc n - exported) export_batch_size then suc n - exported else export_batch_size

-- The last row of a batch, as a cursor.
unfoldable pub last_cursor : Option Cursor → List EventRow → Option Cursor
last_cursor c [] = c
last_cursor c (r ∷ rs) = last_cursor (some (cursor_of r)) rs

-- Whether a limit is reached.
abbrev pub is_reached : (limit exported : ℕ) → Bool
is_reached zero exported = false
is_reached (suc n) exported = leb (suc n) exported

-- A line of the CSV, whose quoting is encoding/csv's.
pub record CsvRecord : Type 0 where
  pub event_id : Text
  pub event_type : Text
  pub trace_id : Text
  pub actor_id : Text
  pub resource : Text
  pub metadata : Text
  pub error : Text
  pub created_at : Text
  pub next_cursor : Text

-- What an export gave to its csv.Writer, and whether it ended with an error. (After an error of a cursor
-- the lines of that batch may still be in the buffer of the csv.Writer.)
pub record Exported : Type 0 where
  pub written : List CsvRecord
  pub failed : Bool

abbrev onto : CsvRecord → Exported → Exported
onto r e = record e { written = r ∷ e.written }

abbrev pub done : Exported
done = record { written = []; failed = false }

module _ (lib : ExportLib) where
  unfoldable pub encode_cursor : Cursor → Option Text
  encode_cursor c = elim (lib.marshal c) [ none ↦ none | some raw ↦ some (lib.encode raw) ]

  abbrev known_cursor : Cursor → Option Cursor
  known_cursor c = if c.created_at == 0 || c.event_id == 0 then none else some c

  -- `decodeCursor`, of a text that is not blank: none is an error.
  unfoldable pub decode_cursor : Text → Option Cursor
  decode_cursor value = elim (lib.decode value) [
    | none ↦ none
    | some raw ↦ elim (lib.unmarshal raw) [ none ↦ none | some c ↦ known_cursor c ]
  ]

  unfoldable pub record_of : (next_cursor : Text) → EventRow → CsvRecord
  record_of next r = record {
    event_id = lib.uuid_string r.event_id;
    event_type = r.event_type;
    trace_id = r.trace_id;
    actor_id = r.actor_id;
    resource = r.resource;
    metadata = r.metadata;
    error = r.error;
    created_at = lib.format_time r.created_at;
    next_cursor = next;
  }

  -- The lines of a batch, and then what follows them.
  unfoldable pub write_rows : List EventRow → Exported → Exported
  write_rows [] rest = rest
  write_rows (r ∷ rs) rest =
      let others = write_rows rs rest in
      elim (encode_cursor (cursor_of r)) [
        | none ↦ record { written = []; failed = true }
        | some next ↦ onto (record_of next r) others
      ]

  -- The loop over the batches, on fuel: none is out of fuel.
  unfoldable pub export_batches :
      ExportFilter
      → (rows : List EventRow) → (fuel : ℕ) → Option Cursor
      → (exported : ℕ) → Option Exported
  export_batches f rows zero c exported = none
  export_batches f rows (suc fuel) c exported =
      let size = batch_limit f.limit exported in
      let batch = find_batch f c size rows in
      let total = exported + length batch in
      let rest = export_batches f rows fuel (last_cursor c batch) total in
      if size == 0 || length batch == 0
      then some done
      else if ltb (length batch) size || is_reached f.limit total
      then some (write_rows batch done)
      else elim rest [ none ↦ none | some more ↦ some (write_rows batch more) ]

  -- `ExportCSV`, without the line of headings, on fuel for one batch of each row.
  unfoldable pub export_csv : ExportFilter → List EventRow → Option Exported
  export_csv f rows =
      if is_empty (trim_space f.cursor)
      then export_batches f rows (suc (length rows)) none 0
      else elim (decode_cursor f.cursor) [
        | none ↦ some (record { written = []; failed = true })
        | some c ↦ export_batches f rows (suc (length rows)) (some c) 0
      ]

  -- `parseOptionalTime`: an outer none is an error, an inner one no time.
  unfoldable pub parse_optional_time : Text → Option (Option ℕ)
  parse_optional_time value =
      let v = trim_space value in
      if is_empty v then some none else elim (lib.parse_rfc3339 v) [
        | some t ↦ some (some t)
        | none ↦ elim (lib.parse_date v) [ none ↦ none | some t ↦ some (some t) ]
      ]

  -- The limit of a query, from what strconv.Atoi returns for a text that is not blank.
  abbrev checked_limit : Option ℤ → Option ℕ
  checked_limit none = none
  checked_limit (some (negsuc n)) = none
  checked_limit (some (pos n)) = if n == 0 || ltb 100000 n then none else some n

  unfoldable pub parse_limit : (limit_text : Text) → (limit : Option ℤ) → Option ℕ
  parse_limit text limit = if is_empty (trim_space text) then some 0 else checked_limit limit

  -- `parseExportFilter`, whose errors the handler reports alike.
  unfoldable pub parse_export_filter :
      (event_type cursor from to limit_text : Text) → (limit : Option ℤ) → Reply ExportFilter
  parse_export_filter event_type cursor from to limit_text limit = do
    start ← or_refuse (parse_optional_time from) 400 (codes "INVALID_AUDIT_EXPORT_QUERY")
    end ← or_refuse (parse_optional_time to) 400 (codes "INVALID_AUDIT_EXPORT_QUERY")
    n ← or_refuse (parse_limit limit_text limit) 400 (codes "INVALID_AUDIT_EXPORT_QUERY")
    answered (record {
      event_type = trim_space event_type;
      from = start;
      to = end;
      cursor = trim_space cursor;
      limit = n;
    })
