-- ===== src/Audit/Batches.antt =====
-- The loop over the batches of an export (common/audit/export.go, ExportCSV).
use my_go_market.Prelude.{
  ℕ, zero, suc, ◌+◌, ◌<◌, true, false, Option, some, List, [], ◌++◌, ◌≡◌, refl, ◌==◌, ◌||◌, ◌⊎◌,
  inl, inr, ltb, length, take, drop, arith, ap, sym, subst, ◌∙◌, Bool-cases, ==_iff, length-take,
  length-drop, ltb→lt,
}
use my_go_market.Audit.Export.{
  EventRow, Cursor, ExportFilter, ExportLib, Exported, find_batch, batch_limit, last_cursor,
  is_reached, write_rows, done, export_batches,
}
use my_go_market.Audit.Order.{IsKeyed}
use my_go_market.Audit.Pages.{to_export, to_export-last_cursor}
use my_go_market.Audit.Limits.{
  up_to, write_rows-append, up_to-over, up_to-empty, up_to-short, up_to-reached, up_to-full,
  no_rows,
}

module _ (lib : ExportLib) (f : ExportFilter) (rows : List EventRow) where
  -- A round of the loop that goes on.
  export_round :
      (fuel : ℕ) (c : Option Cursor) (e : ℕ) (more : Exported)
      → let size = batch_limit f.limit e in
        let batch = find_batch f c size rows in
        (size == 0) ≡ false
        → (length batch == 0) ≡ false
        → ltb (length batch) size ≡ false
        → is_reached f.limit (e + length batch) ≡ false
        → export_batches lib f rows fuel (last_cursor c batch) (e + length batch) ≡ some more
        → export_batches lib f rows (suc fuel) c e ≡ some (write_rows lib batch more)
  unfolding export_batches
  export_round fuel c e more some_left some_read full below rest =
      rw (some_left, some_read, full, below, rest, export_batches) refl

  -- A round that is the last.
  export_last :
      (fuel : ℕ) (c : Option Cursor) (e : ℕ)
      → let size = batch_limit f.limit e in
        let batch = find_batch f c size rows in
        (size == 0) ≡ false
        → (length batch == 0) ≡ false
        → (ltb (length batch) size ≡ true) ⊎ (is_reached f.limit (e + length batch) ≡ true)
        → export_batches lib f rows (suc fuel) c e ≡ some (write_rows lib batch done)
  unfolding export_batches
  export_last fuel c e some_left some_read (inl short) =
      rw (some_left, some_read, short, export_batches) refl
  export_last fuel c e some_left some_read (inr reached) =
      elim (Bool-cases
        (ltb (length (find_batch f c (batch_limit f.limit e) rows)) (batch_limit f.limit e))) [
          | inl short ↦ rw (some_left, some_read, short, export_batches) refl
          | inr full ↦ rw (some_left, some_read, full, reached, export_batches) refl
        ]

  export_none :
      (fuel : ℕ) (c : Option Cursor) (e : ℕ)
      → let size = batch_limit f.limit e in
        ((size == 0) || (length (find_batch f c size rows) == 0)) ≡ true
        → export_batches lib f rows (suc fuel) c e ≡ some done
  unfolding export_batches
  export_none fuel c e over = rw (over, export_batches) refl

  find_batch-to_export :
      (c : Option Cursor) (n : ℕ) → find_batch f c n rows ≡ take n (to_export f c rows)
  unfolding find_batch to_export
  find_batch-to_export c n = refl

  unfoldable pub wrote : (c : Option Cursor) → (exported : ℕ) → Option Exported
  wrote c e = some (write_rows lib (up_to f.limit e (to_export f c rows)) done)

  -- With fuel for the rows that are left, the loop writes them all, up to the limit.
  pub export_batches_lem :
      (fuel : ℕ) (c : Option Cursor) (e : ℕ)
      → IsKeyed rows
      → length (to_export f c rows) < fuel
      → export_batches lib f rows fuel c e ≡ wrote c e
  unfolding wrote write_rows
  export_batches_lem zero c e keyed enough = absurd (omega (arith, enough))
  export_batches_lem (suc fuel) c e keyed enough =
      let size = batch_limit f.limit e in
      let s = to_export f c rows in
      let batch = find_batch f c size rows in
      let taken : batch ≡ take size s = find_batch-to_export c size in
      let written = λ (x : List EventRow). some (write_rows lib x done) in
      elim (Bool-cases (size == 0)) [
        | inl over ↦
            export_none fuel c e (ground (arith, over))
            ∙ ap written (sym (up_to-over f.limit e s ((==_iff size 0).0 over)))
            ∙ refl
        | inr some_left ↦ elim (Bool-cases (length batch == 0)) [
          | inl empty ↦
              let nothing : s ≡ [] =
                no_rows s size (λ z. ground (arith, some_left, ==_iff size 0))
                  (ap length (sym taken) ∙ (==_iff (length batch) 0).0 empty) in
              export_none fuel c e (ground (arith, empty))
              ∙ ap written (sym (ap (up_to f.limit e) nothing ∙ up_to-empty f.limit e))
          | inr some_read ↦ elim (Bool-cases (ltb (length batch) size)) [
            | inl short ↦
                export_last fuel c e some_left some_read (inl short)
                ∙ ap written (
                    taken
                    ∙ sym (
                        up_to-short f.limit e s (
                          subst (λ (x : List EventRow). length x < size) taken
                            (ltb→lt (length batch) size short))))
            | inr full ↦ elim (Bool-cases (is_reached f.limit (e + length batch))) [
              | inl reached ↦
                  export_last fuel c e some_left some_read (inr reached)
                  ∙ ap written (
                      taken
                      ∙ sym (
                          up_to-reached f.limit e s (
                            subst (λ (x : List EventRow). is_reached f.limit (e + length x) ≡ true)
                              taken reached)))
              | inr below ↦
                  let whole : length batch ≡ size =
                    ground (
                      arith,
                      full,
                      ap (λ (x : List EventRow). length x) taken,
                      length-take size s,
                    ) in
                  let pos_size : 0 < size = ground (arith, some_left) in
                  let pos_rows : 0 < length s = omega (
                    arith,
                    whole,
                    pos_size,
                    ap (λ (x : List EventRow). length x) taken,
                    length-take size s,
                  ) in
                  let next : to_export f (last_cursor c batch) rows ≡ drop size s =
                    ap (λ (x : List EventRow). to_export f (last_cursor c x) rows) taken
                    ∙ to_export-last_cursor f c rows size keyed pos_size pos_rows in
                  let fewer : length (to_export f (last_cursor c batch) rows) < fuel = omega (
                    arith,
                    enough,
                    pos_size,
                    pos_rows,
                    ap (λ (x : List EventRow). length x) next,
                    length-drop size s,
                  ) in
                  export_round fuel c e
                    (write_rows lib
                      (up_to f.limit (e + length batch) (to_export f (last_cursor c batch) rows))
                      done)
                    some_left some_read full below
                    (export_batches_lem fuel (last_cursor c batch) (e + length batch) keyed fewer)
                  ∙ ap some (
                      write_rows-append lib batch
                        (up_to f.limit (e + length batch) (to_export f (last_cursor c batch) rows))
                        done)
                  ∙ ap written (
                      sym (
                        up_to-full f.limit e s
                        ∙ ap (λ (x : List EventRow). x ++ up_to f.limit (e + size) (drop size s))
                            (sym taken)
                        ∙ ap (λ k. batch ++ up_to f.limit (e + k) (drop size s)) (sym whole)
                        ∙ ap (λ (x : List EventRow). batch ++ up_to f.limit (e + length batch) x)
                            (sym next)))
            ]
          ]
        ]
      ]
