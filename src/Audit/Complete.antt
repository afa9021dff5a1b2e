-- ===== src/Audit/Complete.antt =====
-- An export as a whole (common/audit/export.go, ExportCSV).
use my_go_market.Prelude.{
  ℕ, suc, ◌<◌, false, Option, none, some, List, ◌≡◌, refl, ◌==◌, ◌||◌, inl, inr, if◌then◌else◌,
  length, take, drop, arith, ap, sym, subst, ◌∙◌, Bool-cases, Option-cases,
}
use my_go_market.Prelude.Text.{Text, is_empty, trim_space}
use my_go_market.Audit.Export.{
  EventRow, Cursor, ExportFilter, ExportLib, apply_export_filter, last_cursor, encode_cursor,
  decode_cursor, write_rows, done, export_batches, export_csv, in_order,
}
use my_go_market.Audit.Order.{IsKeyed, length-in_order, length-where}
use my_go_market.Audit.Pages.{to_export, to_export-last_cursor}
use my_go_market.Audit.Limits.{up_to}
use my_go_market.Audit.Batches.{wrote, export_batches_lem}

all_fit :
    (f : ExportFilter) (c : Option Cursor) (rows : List EventRow)
    → length (to_export f c rows) < suc (length rows)
unfolding to_export
all_fit f c rows =
    omega (arith, length-where (apply_export_filter f c) (in_order rows), length-in_order rows)

-- Where an export begins: an outer none is a cursor that cannot be read.
unfoldable pub starting_cursor : ExportLib → ExportFilter → Option (Option Cursor)
starting_cursor lib f =
    if is_empty (trim_space f.cursor)
    then some none
    else elim (decode_cursor lib f.cursor) [ none ↦ none | some c ↦ some (some c) ]

-- The rows of an export: those that pass the filter and come after the cursor, in their order, up to
-- the limit.
abbrev pub exported_rows : ExportFilter → Option Cursor → List EventRow → List EventRow
exported_rows f c rows = up_to f.limit 0 (to_export f c rows)

-- Where the events have different ids and the cursor is blank or can be read, an export ends, and
-- writes what one query without batches would give: the events that pass the filter and come after the
-- cursor, each once, in the order of their times and ids, up to the limit. (An event whose cursor
-- cannot be written ends it with an error, after those before it.)
pub export_complete :
    (lib : ExportLib) (f : ExportFilter) (rows : List EventRow) {c : Option Cursor}
    → IsKeyed rows
    → starting_cursor lib f ≡ some c
    → export_csv lib f rows ≡ some (write_rows lib (exported_rows f c rows) done)
unfolding export_csv starting_cursor wrote
export_complete lib f rows {c} keyed begun = elim (Bool-cases (is_empty (trim_space f.cursor))) [
  | inl blank ↦ let e : none ≡ c = ground (arith, begun, blank) in rw blank (from e)
  | inr given ↦ elim (Option-cases (decode_cursor lib f.cursor)) [
    | inl unread ↦ absurd (ground (arith, begun, given, unread))
    | inr (k, read) ↦
        let e : some k ≡ c = ground (arith, begun, given, read) in
        rw (given, read, export_csv) (from e)
  ]
]
  where
    from :
        {d : Option Cursor}
        → d ≡ c
        → export_batches lib f rows (suc (length rows)) d 0
          ≡ some (write_rows lib (exported_rows f c rows) done)
    from {d} e =
        export_batches_lem lib f rows (suc (length rows)) d 0 keyed (all_fit f d rows)
        ∙ ap (λ (x : Option Cursor). some (write_rows lib (exported_rows f x rows) done)) e

-- What is relied on of encoding/json and encoding/base64: what they wrote they read, and it is not
-- blank.
pub record IsFaithful (lib : ExportLib) : Type 0 where
  pub unmarshal_marshal :
      (c : Cursor) (raw : Text) → lib.marshal c ≡ some raw → lib.unmarshal raw ≡ some c
  pub decode_encode : (raw : Text) → lib.decode (lib.encode raw) ≡ some raw
  pub not_blank :
      (c : Cursor) (raw : Text)
      → lib.marshal c ≡ some raw
      → is_empty (trim_space (lib.encode raw)) ≡ false

decode-encode_cursor :
    (lib : ExportLib) (k : Cursor) {text : Text}
    → IsFaithful lib
    → encode_cursor lib k ≡ some text
    → (k.created_at == 0 || k.event_id == 0) ≡ false
    → (decode_cursor lib text ≡ some k) × (is_empty (trim_space text) ≡ false)
unfolding encode_cursor decode_cursor
decode-encode_cursor lib k {text} faithful written known = elim (Option-cases (lib.marshal k)) [
  | inl unwritten ↦ absurd (ground (arith, written, unwritten))
  | inr (raw, marshalled) ↦
      let e : lib.encode raw ≡ text = ground (arith, written, marshalled) in
      (
        subst (λ (x : Text). decode_cursor lib x ≡ some k) e
            (rw
              (
                faithful.decode_encode raw,
                faithful.unmarshal_marshal k raw marshalled,
                known,
                decode_cursor,
              )
              refl),
        subst (λ (x : Text). is_empty (trim_space x) ≡ false) e
            (faithful.not_blank k raw marshalled),
      )
]

-- Under the stated behaviour of encoding/json and encoding/base64, where the events have different
-- ids: an export without a limit from the cursor that the n-th line of another one shows, with the same
-- conditions otherwise, ends, and writes exactly the events that the other has after its n-th.
pub export_resumes :
    (lib : ExportLib) (f : ExportFilter) (rows : List EventRow) (c : Option Cursor) (n : ℕ)
    {k : Cursor} {text : Text}
    → IsFaithful lib
    → IsKeyed rows
    → 0 < n
    → 0 < length (to_export f c rows)
    → last_cursor c (take n (to_export f c rows)) ≡ some k
    → (k.created_at == 0 || k.event_id == 0) ≡ false
    → encode_cursor lib k ≡ some text
    → export_csv lib (record f { cursor = text; limit = 0 }) rows
      ≡ some (write_rows lib (drop n (to_export f c rows)) done)
unfolding up_to starting_cursor
export_resumes lib f rows c n {k} {text} faithful keyed pos_n pos_rows shown known written =
    let (read, given) = decode-encode_cursor lib k faithful written known in
    export_complete lib (record f { cursor = text; limit = 0 }) rows {c = some k} keyed
      (rw (given, read, starting_cursor) refl)
    ∙ ap (λ (s : List EventRow). some (write_rows lib s done))
        (same_rows
          ∙ ap (λ (d : Option Cursor). to_export f d rows) (sym shown)
          ∙ to_export-last_cursor f c rows n keyed pos_n pos_rows)
  where
    same_rows :
        to_export (record f { cursor = text; limit = 0 }) (some k) rows ≡ to_export f (some k) rows
    same_rows = unfold to_export apply_export_filter in refl
