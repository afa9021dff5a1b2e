-- ===== src/Audit/Retries.antt =====
-- common/audit/audit.go: the deletes of stored files that failed and are tried again
-- (RecordMinioDeleteRetry, runMinioDeleteRetries). Times are in minutes.
use my_go_market.Prelude.{
  ℕ, ◌+◌, ◌*◌, Bool, true, false, Option, none, some, List, [], ◌∷◌, ◌++◌, ◌&&◌, if◌then◌else◌, ltb,
  leb, take,
}
use my_go_market.Prelude.Text.{Text, is_empty}
use my_go_market.Table.{update, where_rows, sort_by}

pub data RetryStatus : Type 0 where
  pending finished failed : RetryStatus

-- `minioDeleteRetryRow`, the file by its name.
pub record RetryRow : Type 0 where
  pub retry_id : ℕ
  pub object_name : Text
  pub reason : Text
  pub trace_id : Text
  pub attempts : ℕ
  pub status : RetryStatus
  pub next_run_at : ℕ
  pub created_at : ℕ
  pub updated_at : ℕ

abbrev pub max_attempts : ℕ
max_attempts = 5

abbrev pub retry_batch_size : ℕ
retry_batch_size = 50

unfoldable pub is_pending : RetryStatus → Bool
is_pending pending = true
is_pending finished = false
is_pending failed = false

-- `RecordMinioDeleteRetry`, with the id that is drawn.
unfoldable pub record_retry :
    (retry_id now : ℕ) (object_name reason trace_id : Text) → List RetryRow → List RetryRow
record_retry id now object_name reason trace_id rows =
    if is_empty object_name
    then rows
    else rows
      ++ (record {
        retry_id = id;
        object_name = object_name;
        reason = reason;
        trace_id = trace_id;
        attempts = 0;
        status = pending;
        next_run_at = now + 1;
        created_at = now;
        updated_at = now;
      }
          ∷ [])

unfoldable pub is_due_now : (now : ℕ) → RetryRow → Bool
is_due_now now r = is_pending r.status && leb r.next_run_at now && ltb r.attempts max_attempts

-- The rows of one run, at most fifty.
unfoldable pub due_rows : (now : ℕ) → List RetryRow → List RetryRow
due_rows now rows =
    take retry_batch_size (sort_by (λ r. r.next_run_at) (where_rows (is_due_now now) rows))

-- What the delete of a row's file gives: none where it is gone, some with the error's text.
abbrev pub Deletion : Type 0
Deletion = RetryRow → Option Text

-- The columns that a row's turn writes, on the row of that id as the table has it. The two readings of
-- the clock in a turn count as one.
unfoldable pub written_by : (now : ℕ) → (row : RetryRow) → Option Text → RetryRow → RetryRow
written_by now row none r = record r { status = finished; updated_at = now }
written_by now row (some err) r =
    let next_attempts = row.attempts + 1 in
    record r {
      attempts = next_attempts;
      reason = err;
      status = (if leb max_attempts next_attempts then failed else pending);
      next_run_at = now + next_attempts * next_attempts;
      updated_at = now;
    }

unfoldable pub retry_each : (now : ℕ) → Deletion → List RetryRow → List RetryRow → List RetryRow
retry_each now removal [] rows = rows
retry_each now removal (row ∷ due) rows =
    retry_each now removal due
      (update (λ r. r.retry_id) row.retry_id (written_by now row (removal row)) rows)

-- `runMinioDeleteRetries`: the files that the store does not remove keep their rows.
unfoldable pub run_retries : (now : ℕ) → Deletion → List RetryRow → List RetryRow
run_retries now removal rows = retry_each now removal (due_rows now rows) rows

-- A call of `RecordMinioDeleteRetry`, or a run of the worker.
pub data RetryAction : Type 0 where
  to_record : (retry_id now : ℕ) → (object_name reason trace_id : Text) → RetryAction
  to_run : (now : ℕ) → Deletion → RetryAction

unfoldable pub after_action : RetryAction → List RetryRow → List RetryRow
after_action (to_record id now object_name reason trace_id) rows =
    record_retry id now object_name reason trace_id rows
after_action (to_run now removal) rows = run_retries now removal rows

unfoldable pub after_actions : List RetryAction → List RetryRow → List RetryRow
after_actions [] rows = rows
after_actions (a ∷ actions) rows = after_actions actions (after_action a rows)
