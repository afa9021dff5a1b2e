-- ===== src/Audit/Tests.antt =====
-- The theorems on the audit log at concrete events.
use mathlib.Core.List
use my_go_market.Prelude.{
  ℕ, ◌+◌, true, false, Option, none, some, List, [], ◌∷◌, ◌++◌, ◌≡◌, refl, inl, inr, drop, arith,
  All, ap, sym, ◌∙◌, Bool-cases, if◌then◌else◌,
}
use mathlib.Core.Option.{some-injective}
use my_go_market.Prelude.Text.{Text, codes, is_empty, trim_space, trim_left, is_space}
use my_go_market.Audit.Export.{
  EventRow, Cursor, ExportFilter, ExportLib, cursor_of, last_cursor, encode_cursor, write_rows,
  done, export_csv,
}
use my_go_market.Audit.Order.{IsKeyed}
use my_go_market.Audit.Pages.{to_export}
use my_go_market.Audit.Complete.{
  IsFaithful, starting_cursor, exported_rows, export_complete, export_resumes,
}
use my_go_market.Audit.Writer.{Event, Flush, start, Action, to_emit, to_receive, to_tick, run}
use my_go_market.Audit.Known.{events_of, accepted}
use my_go_market.Audit.Flushed.{closing, shutdown_writes_accepted}
use my_go_market.Audit.Retries.{RetryAction, to_record, to_run, after_actions, run_retries}
use my_go_market.Audit.Tried.{retry_key}
use my_go_market.Table.{lookup}
use mathlib.Core.Option
use my_go_market.Audit.Retried.{IsTracked, is_ripe, after_try, retries_counted}

-- A cursor is written as its two numbers, and encoded by a letter before them.
abbrev read_pair : Text → Option Cursor
read_pair (time ∷ id ∷ []) = some (record { created_at = time; event_id = id })
read_pair _ = none

abbrev after_letter : Text → Option Text
after_letter [] = none
after_letter (_ ∷ raw) = some raw

abbrev toy : ExportLib
toy = record {
  marshal = λ c. some (c.created_at ∷ c.event_id ∷ []);
  unmarshal = read_pair;
  encode = λ raw. 65 ∷ raw;
  decode = after_letter;
  uuid_string = λ id. id ∷ [];
  format_time = λ t. t ∷ [];
  parse_rfc3339 = λ value. none;
  parse_date = λ value. none;
}

trim_left-end : (xs : Text) → (ys : Text) × (trim_left (xs ++ (65 ∷ [])) ≡ ys ++ (65 ∷ []))
unfolding trim_left is_space
trim_left-end [] = ([], refl)
trim_left-end (x ∷ xs) = elim (Bool-cases (is_space x)) [
  | inl space ↦ let (ys, e) = trim_left-end xs in (ys, ground (arith, space, e))
  | inr letter ↦ (x ∷ xs, ground (arith, letter))
]

not_blank : (raw : Text) → is_empty (trim_space (65 ∷ raw)) ≡ false
unfolding trim_space trim_left is_space
not_blank raw =
    let (ys, e) = trim_left-end (List.reverse raw) in
    ap (λ (t : Text). is_empty (List.reverse t)) (ap trim_left (List.reverse-cons 65 raw) ∙ e)
    ∙ ap is_empty (List.reverse-append ys (65 ∷ []))

toy-IsFaithful : IsFaithful toy
toy-IsFaithful = record {
  unmarshal_marshal = λ c raw e. ap read_pair (sym (some-injective _ _ e));
  decode_encode = λ raw. refl;
  not_blank = λ c raw _. not_blank raw;
}

abbrev event : (id time : ℕ) → EventRow
event id time = record {
  event_id = id;
  event_type = codes "role_permissions_updated";
  trace_id = [];
  actor_id = codes "root";
  resource = 49 ∷ [];
  metadata = [];
  error = [];
  created_at = time;
}

abbrev log : List EventRow
log = event 7 30 ∷ event 3 10 ∷ event 5 20 ∷ event 2 20 ∷ []

abbrev all_events : ExportFilter
all_events = record { event_type = []; from = some 10; to = none; cursor = []; limit = 3 }

log-IsKeyed : IsKeyed log
log-IsKeyed = omega arith

export_complete_example :
    export_csv toy all_events log ≡ some (write_rows toy (exported_rows all_events none log) done)
export_complete_example =
    export_complete toy all_events log log-IsKeyed
      (unfold starting_cursor trim_space trim_left in refl)

-- The cursor of the second line.
abbrev second : Cursor
second = record { created_at = 20; event_id = 2 }

abbrev shown : Text
shown = 65 ∷ 20 ∷ 2 ∷ []

export_resumes_example :
    export_csv toy (record all_events { cursor = shown; limit = 0 }) log
    ≡ some (write_rows toy (drop 2 (to_export all_events none log)) done)
unfolding to_export my_go_market.Audit.Export.apply_export_filter my_go_market.Audit.Export.in_order
    my_go_market.Audit.Export.insert_row my_go_market.Audit.Export.after
    my_go_market.Table.where_rows last_cursor encode_cursor
export_resumes_example =
    export_resumes toy all_events log none 2 {k = second} {text = shown} toy-IsFaithful log-IsKeyed
      (omega arith) (omega arith) refl refl refl

abbrev published : Event
published = record {
  event_type = codes "app_published";
  trace_id = [];
  actor_id = [];
  resource = [];
  metadata = [];
  error = [];
}

abbrev upload : Event
upload = record published { event_type = codes "app_deleted" }

abbrev healthy : Flush
healthy = record { database = true; now = 90; new_id = λ n. 1000 + n }

abbrev morning : List Action
morning =
    to_emit published
    ∷ to_receive healthy
    ∷ to_tick healthy
    ∷ to_emit upload
    ∷ to_emit published
    ∷ []

shutdown_writes_accepted_example :
    let w = run morning start in
    let w' = run (closing w healthy) w in
    (w'.done ≡ true) × (events_of w'.table ≡ accepted morning start)
shutdown_writes_accepted_example =
    shutdown_writes_accepted morning healthy (tt, (refl, (refl, (tt, (tt, tt))))) refl

abbrev one_failure : List RetryAction
one_failure =
    to_record 1 100 (codes "a.zip") [] []
    ∷ to_run 101 (λ row. some (codes "timeout"))
    ∷ to_record 2 101 (codes "b.zip") [] []
    ∷ []

-- A minute later the second file is ripe, and so is the first.
retries_counted_example :
    All IsTracked (after_actions one_failure [])
    × ((k : ℕ)
        → lookup retry_key k (run_retries 102 (λ row. none) (after_actions one_failure []))
          ≡ Option.map
              (λ r. if is_ripe 102 r then after_try 102 none r else r)
              (lookup retry_key k (after_actions one_failure [])))
unfolding after_actions my_go_market.Audit.Retries.after_action
    my_go_market.Audit.Retries.record_retry my_go_market.Audit.Retries.run_retries
    my_go_market.Audit.Retries.retry_each my_go_market.Audit.Retries.due_rows
    my_go_market.Audit.Retries.is_due_now my_go_market.Audit.Retries.is_pending
    my_go_market.Audit.Retries.written_by my_go_market.Table.update my_go_market.Table.where_rows
    my_go_market.Table.sort_by my_go_market.Table.insert_by
retries_counted_example =
    retries_counted one_failure 102 (λ row. none) ((refl, tt), (tt, tt)) (omega arith)
