-- ===== src/Audit/Tried.antt =====
-- Which rows a run of the retries takes, and what it writes in them (runMinioDeleteRetries of
-- common/audit/audit.go).
use mathlib.Core.Option
use my_go_market.Prelude.{
  ℕ, ◌≤◌, Option, none, some, List, [], ◌∷◌, ◌≡◌, refl, ◌==◌, if◌then◌else◌, take, length, take-all,
  arith, ap, sym, ◌∙◌, All, Bool-cases, inl, inr, ==_iff, false,
}
use my_go_market.Prelude.Text.{Text}
use my_go_market.Table.{
  lookup, update, where_rows, sort_by, lookup-update_self, lookup-update_ne, All-where_kept,
  All-sort_by,
}
use my_go_market.Table.Keyed.{
  AreKeyed, IsFound, AreKeyed-IsFound, where_rows-AreKeyed, sort_by-AreKeyed, lookup-where_rows,
  lookup-sort_by, lookup-later, kept_if, length-sort_by,
}
use my_go_market.Audit.Retries.{
  RetryRow, Deletion, written_by, retry_each, retry_batch_size, is_due_now, due_rows, run_retries,
}

abbrev pub retry_key : RetryRow → ℕ
retry_key r = r.retry_id

-- What a row's turn leaves of the row that it read.
abbrev pub tried : (now : ℕ) → Deletion → RetryRow → RetryRow
tried now removal r = written_by now r (removal r) r

-- The row under a key after a run: tried, if the run takes it.
abbrev after_turn : (now : ℕ) → Deletion → (taken before : Option RetryRow) → Option RetryRow
after_turn now removal none before = before
after_turn now removal (some r) before = some (tried now removal r)

written_by-retry_id :
    (now : ℕ) (row : RetryRow) (err : Option Text) (r : RetryRow)
    → retry_key (written_by now row err r) ≡ retry_key r
unfolding written_by
written_by-retry_id now row none r = refl
written_by-retry_id now row (some e) r = refl

-- Writing one row leaves the others as they are found.
update-IsFound :
    (id : ℕ) (f : RetryRow → RetryRow) (rows due : List RetryRow)
    → ((r : RetryRow) → retry_key (f r) ≡ retry_key r)
    → All (λ (r : RetryRow). (retry_key r == id) ≡ false) due
    → All (IsFound retry_key rows) due
    → All (IsFound retry_key (update retry_key id f rows)) due
update-IsFound id f rows [] same _ _ = tt
update-IsFound id f rows (r ∷ due) same (d, ds) (q, qs) = (
  lookup-update_ne retry_key (retry_key r) id f rows same (ground (arith, d)) ∙ q,
  update-IsFound id f rows due same ds qs,
)

lookup-retry_each :
    (now : ℕ) (removal : Deletion) (k : ℕ) (due rows : List RetryRow)
    → AreKeyed retry_key due
    → All (IsFound retry_key rows) due
    → lookup retry_key k (retry_each now removal due rows)
      ≡ after_turn now removal (lookup retry_key k due) (lookup retry_key k rows)
unfolding retry_each lookup
lookup-retry_each now removal k [] rows _ _ = refl
lookup-retry_each now removal k (row ∷ due) rows (d, ds) (q, qs) =
    let write = written_by now row (removal row) in
    let same = written_by-retry_id now row (removal row) in
    let rest =
      lookup-retry_each now removal k due (update retry_key row.retry_id write rows) ds
        (update-IsFound row.retry_id write rows due same d qs) in
    elim (Bool-cases (retry_key row == k)) [
      | inl here ↦
          let e : row.retry_id ≡ k = (==_iff row.retry_id k).0 here in
          rw here (
            rest
            ∙ ap
                (λ x.
                  after_turn now removal x
                    (lookup retry_key k (update retry_key row.retry_id write rows)))
                (lookup-later retry_key k row due here d)
            ∙ ap (λ j. lookup retry_key j (update retry_key row.retry_id write rows)) (sym e)
            ∙ lookup-update_self retry_key row.retry_id write rows same
            ∙ ap (Option.map write) q)
      | inr other ↦ rw other (
          rest
          ∙ ap (after_turn now removal (lookup retry_key k due))
              (lookup-update_ne retry_key k row.retry_id write rows same (ground (arith, other))))
    ]

-- Where at most one batch is due, a run tries each row that is due, and leaves the others.
pub lookup-run_retries :
    (now : ℕ) (removal : Deletion) (rows : List RetryRow) (k : ℕ)
    → AreKeyed retry_key rows
    → length (where_rows (is_due_now now) rows) ≤ retry_batch_size
    → lookup retry_key k (run_retries now removal rows)
      ≡ Option.map
          (λ r. if is_due_now now r then tried now removal r else r)
          (lookup retry_key k rows)
unfolding run_retries due_rows
lookup-run_retries now removal rows k keyed few =
    let taken = where_rows (is_due_now now) rows in
    let sorted = sort_by (λ r. r.next_run_at) taken in
    let all : take retry_batch_size sorted ≡ sorted =
      take-all retry_batch_size sorted
        (omega (arith, few, length-sort_by (λ (r : RetryRow). r.next_run_at) taken)) in
    let keyed_taken = where_rows-AreKeyed retry_key (is_due_now now) rows keyed in
    let found : All (IsFound retry_key rows) sorted =
      All-sort_by (IsFound retry_key rows) (λ r. r.next_run_at) taken
        (All-where_kept (IsFound retry_key rows) (is_due_now now) rows
          (AreKeyed-IsFound retry_key rows keyed)) in
    ap (λ x. lookup retry_key k (retry_each now removal x rows)) all
    ∙ lookup-retry_each now removal k sorted rows
        (sort_by-AreKeyed retry_key (λ r. r.next_run_at) taken keyed_taken) found
    ∙ ap (λ x. after_turn now removal x (lookup retry_key k rows))
        (lookup-sort_by retry_key (λ r. r.next_run_at) k taken keyed_taken
          ∙ lookup-where_rows retry_key (is_due_now now) k rows keyed)
    ∙ by_row (lookup retry_key k rows)
  where
    by_row :
        (before : Option RetryRow)
        → after_turn now removal (kept_if retry_key (is_due_now now) before) before
          ≡ Option.map (λ r. if is_due_now now r then tried now removal r else r) before
    by_row none = refl
    by_row (some r) = elim (Bool-cases (is_due_now now r)) [
      | inl due ↦ rw due refl
      | inr early ↦ rw early refl
    ]
