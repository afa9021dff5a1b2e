-- ===== src/Audit/Retried.antt =====
-- How often the deletes of stored files are tried again (common/audit/audit.go).
use mathlib.Core.Option
use my_go_market.Prelude.{
  ap, sym, subst, ◌∙◌, ◌&&◌, Bool, ltb, length, ℕ, ◌+◌, ◌*◌, ◌≤◌, ◌<◌, true, Option, none, some,
  List, [], ◌∷◌, ◌≡◌, refl, ◌==◌, if◌then◌else◌, leb, arith, All, All-take, All-append, Bool-cases,
  inl, inr,
}
use my_go_market.Prelude.Text.{Text, is_empty}
use my_go_market.Table.{lookup, where_rows, All-update, All-where_rows, All-sort_by}
use my_go_market.Table.Keyed.{AreKeyed}
use my_go_market.Audit.Tried.{retry_key, tried, lookup-run_retries}
use my_go_market.Audit.Retries.{
  RetryStatus, pending, finished, failed, RetryRow, max_attempts, retry_batch_size, record_retry,
  is_due_now, is_pending, due_rows, Deletion, written_by, retry_each, run_retries, RetryAction,
  to_record, to_run, after_action, after_actions,
}

-- A file that waits has been tried less than five times, and a failed one five times; the wait after the
-- n-th try is n * n minutes, and one minute before the first.
unfoldable pub IsCounted : RetryStatus → RetryRow → Type 0
IsCounted pending r =
    (r.attempts < max_attempts)
    × (r.next_run_at ≡ r.updated_at + (if r.attempts == 0 then 1 else r.attempts * r.attempts))
IsCounted finished r = r.attempts ≤ max_attempts
IsCounted failed r = r.attempts ≡ max_attempts

abbrev pub IsTracked : RetryRow → Type 0
IsTracked r = IsCounted r.status r

IsOpen : RetryRow → Type 0
IsOpen r = r.attempts < max_attempts

is_due_now-IsOpen : (now : ℕ) (r : RetryRow) → is_due_now now r ≡ true → IsOpen r
unfolding is_due_now IsOpen
is_due_now-IsOpen now r due = ground (arith, due)

due_rows-IsOpen : (now : ℕ) (rows : List RetryRow) → All IsOpen (due_rows now rows)
unfolding due_rows
due_rows-IsOpen now rows = All-take IsOpen retry_batch_size _ (
    All-sort_by IsOpen (λ r. r.next_run_at) _
      (All-where_rows IsOpen (is_due_now now) rows (is_due_now-IsOpen now)))

counted : (s : RetryStatus) (r : RetryRow) → IsCounted s r → r.attempts ≤ max_attempts
unfolding IsCounted
counted pending r h = omega (arith, h.0)
counted finished r h = h
counted failed r h = omega (arith, h)

-- A row of any kind, with what a row that is due writes.
written_by-IsTracked :
    (now : ℕ) (row : RetryRow) (err : Option Text) (r : RetryRow)
    → IsOpen row
    → IsTracked r
    → IsTracked (written_by now row err r)
unfolding IsOpen written_by IsCounted
written_by-IsTracked now row none r open_row h = counted r.status r h
written_by-IsTracked now row (some err) r open_row h =
    elim (Bool-cases (leb max_attempts (row.attempts + 1))) [
      | inl last ↦ rw last (ground (arith, last))
      | inr more ↦ rw more (ground (arith, more))
    ]

retry_each-IsTracked :
    (now : ℕ) (removal : Deletion) (due rows : List RetryRow)
    → All IsOpen due
    → All IsTracked rows
    → All IsTracked (retry_each now removal due rows)
unfolding retry_each
retry_each-IsTracked now removal [] rows _ h = h
retry_each-IsTracked now removal (row ∷ due) rows (open_row, others) h =
    retry_each-IsTracked now removal due _ others (
      All-update IsTracked (λ r. r.retry_id) row.retry_id (written_by now row (removal row)) rows
        (λ r t. written_by-IsTracked now row (removal row) r open_row t) h)

record_retry-IsTracked :
    (id now : ℕ) (object_name reason trace_id : Text) (rows : List RetryRow)
    → All IsTracked rows
    → All IsTracked (record_retry id now object_name reason trace_id rows)
unfolding record_retry IsCounted
record_retry-IsTracked id now object_name reason trace_id rows h =
    elim (Bool-cases (is_empty object_name)) [
      | inl blank ↦ simp (blank) h
      | inr named ↦ simp (named) (All-append IsTracked rows _ h ((omega arith, refl), tt))
    ]

actions-IsTracked :
    (actions : List RetryAction) (rows : List RetryRow)
    → All IsTracked rows
    → All IsTracked (after_actions actions rows)
unfolding after_actions after_action run_retries
actions-IsTracked [] rows h = h
actions-IsTracked (to_record id now object_name reason trace_id ∷ actions) rows h =
    actions-IsTracked actions _ (record_retry-IsTracked id now object_name reason trace_id rows h)
actions-IsTracked (to_run now removal ∷ actions) rows h =
    actions-IsTracked actions _
      (retry_each-IsTracked now removal (due_rows now rows) rows (due_rows-IsOpen now rows) h)

-- A file is tried again when it waits and its wait is over: n * n minutes after the n-th failure, and a
-- minute after the record.
abbrev pub is_ripe : (now : ℕ) → RetryRow → Bool
is_ripe now r =
    is_pending r.status
    && leb (r.updated_at + (if r.attempts == 0 then 1 else r.attempts * r.attempts)) now

is_due_now-ripe : (now : ℕ) (r : RetryRow) → IsTracked r → is_due_now now r ≡ is_ripe now r
unfolding is_due_now is_pending IsCounted
is_due_now-ripe now r h = by_status r.status refl h
  where
    by_status :
        (s : RetryStatus)
        → r.status ≡ s
        → IsCounted s r
        → (is_pending r.status && leb r.next_run_at now && ltb r.attempts max_attempts)
          ≡ is_ripe now r
    by_status pending e (few, wait) = rw (e, wait) (ground (arith, few))
    by_status finished e h = rw e refl
    by_status failed e h = rw e refl

where_rows-ripe :
    (now : ℕ) (rows : List RetryRow)
    → All IsTracked rows
    → where_rows (is_due_now now) rows ≡ where_rows (is_ripe now) rows
unfolding where_rows
where_rows-ripe now [] _ = refl
where_rows-ripe now (r ∷ rows) (h, hs) =
    ground (arith, is_due_now-ripe now r h, where_rows-ripe now rows hs)

-- A row after a try: finished where the file is gone; else with one more failure, its error and its next
-- wait, failed where it was the fifth.
abbrev pub after_try : (now : ℕ) → Option Text → RetryRow → RetryRow
after_try now none r = record r { status = finished; updated_at = now }
after_try now (some e) r = record r {
  attempts = r.attempts + 1;
  reason = e;
  status = (if leb 5 (r.attempts + 1) then failed else pending);
  next_run_at = now + (r.attempts + 1) * (r.attempts + 1);
  updated_at = now;
}

written_by_lem :
    (now : ℕ) (outcome : Option Text) (r : RetryRow)
    → written_by now r outcome r ≡ after_try now outcome r
unfolding written_by
written_by_lem now none r = refl
written_by_lem now (some e) r = refl

map-ripe :
    (now : ℕ) (removal : Deletion) (k : ℕ) (rows : List RetryRow)
    → All IsTracked rows
    → Option.map
        (λ r. if is_due_now now r then tried now removal r else r)
        (lookup retry_key k rows)
      ≡ Option.map
          (λ r. if is_ripe now r then after_try now (removal r) r else r)
          (lookup retry_key k rows)
unfolding lookup
map-ripe now removal k [] _ = refl
map-ripe now removal k (r ∷ rows) (h, hs) = elim (Bool-cases (retry_key r == k)) [
  | inl here ↦ rw here (
      ap (λ b. some (if b then tried now removal r else r)) (is_due_now-ripe now r h)
      ∙ ap (λ x. some (if is_ripe now r then x else r)) (written_by_lem now (removal r) r))
  | inr other ↦ rw other (map-ripe now removal k rows hs)
]

-- Whatever deletes are recorded and whenever the worker runs, from an empty table, each row is counted
-- right: one that waits has failed less than five times, a failed one five times, and no row more
-- often. Where the ids of the rows differ and no more than the fifty of a batch have waited long
-- enough, a run of the worker tries exactly those rows that wait and whose wait is over, n * n minutes
-- after the n-th failure and one minute after the record: a row whose file is then gone is finished,
-- another one has one more failure, with its error, and has failed at the fifth. Every other row stays
-- as it is.
pub retries_counted :
    (actions : List RetryAction) (now : ℕ) (removal : Deletion)
    → AreKeyed retry_key (after_actions actions [])
    → length (where_rows (is_ripe now) (after_actions actions [])) ≤ retry_batch_size
    → All IsTracked (after_actions actions [])
      × ((k : ℕ)
          → lookup retry_key k (run_retries now removal (after_actions actions []))
            ≡ Option.map
                (λ r. if is_ripe now r then after_try now (removal r) r else r)
                (lookup retry_key k (after_actions actions [])))
retries_counted actions now removal keyed few =
    let rows = after_actions actions [] in
    let counted_rows : All IsTracked rows = actions-IsTracked actions [] tt in
    (
      counted_rows,
      λ k.
          lookup-run_retries now removal rows k keyed (
            subst (λ (x : List RetryRow). length x ≤ retry_batch_size)
              (sym (where_rows-ripe now rows counted_rows)) few)
          ∙ map-ripe now removal k rows counted_rows,
    )
