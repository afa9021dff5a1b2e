-- ===== src/Audit/Limits.antt =====
-- The sizes of the batches of an export (common/audit/export.go, ExportCSV).
use my_go_market.Prelude.{
  ℕ, zero, suc, ◌+◌, ◌-◌, ◌≤◌, ◌<◌, true, List, [], ◌∷◌, ◌++◌, ◌≡◌, ◌≢◌, refl, ◌⊎◌, length, take,
  drop, arith, ap, sym, ◌∙◌, length-take, take-all, take_add,
}
use my_go_market.Audit.Export.{EventRow, ExportLib, Exported, batch_limit, is_reached, write_rows}

-- The first rows up to a limit, of which some are exported; a limit of 0 is none.
unfoldable pub up_to : (limit exported : ℕ) → List EventRow → List EventRow
up_to zero exported rows = rows
up_to (suc n) exported rows = take (suc n - exported) rows

pub write_rows-append :
    (lib : ExportLib) (xs ys : List EventRow) (rest : Exported)
    → write_rows lib xs (write_rows lib ys rest) ≡ write_rows lib (xs ++ ys) rest
unfolding write_rows
write_rows-append lib [] ys rest = refl
write_rows-append lib (x ∷ xs) ys rest =
    ap (λ (others : Exported). write_rows lib (x ∷ []) others) (write_rows-append lib xs ys rest)

batch_limit-bound :
    (n exported : ℕ)
    → (batch_limit (suc n) exported ≤ suc n - exported)
      × ((batch_limit (suc n) exported ≡ suc n - exported) ⊎ (batch_limit (suc n) exported ≡ 500))
unfolding batch_limit
batch_limit-bound n e = ground arith

-- No batch is to be read.
pub up_to-over :
    (limit exported : ℕ) (s : List EventRow)
    → batch_limit limit exported ≡ 0
    → up_to limit exported s ≡ []
unfolding up_to
up_to-over zero e s h = absurd (none_left h)
  where
    none_left : batch_limit 0 e ≢ 0
    none_left h = unfold batch_limit in omega (arith, h)
up_to-over (suc n) e s h =
    let over : suc n - e ≡ 0 = omega (arith, h, (batch_limit-bound n e).1) in
    ap (λ k. take k s) over

pub up_to-empty : (limit exported : ℕ) → up_to limit exported [] ≡ []
unfolding up_to
up_to-empty zero e = refl
up_to-empty (suc n) e = take-all (suc n - e) [] (omega arith)

-- A batch that is not full is the last.
pub up_to-short :
    (limit exported : ℕ) (s : List EventRow)
    → length (take (batch_limit limit exported) s) < batch_limit limit exported
    → up_to limit exported s ≡ take (batch_limit limit exported) s
unfolding up_to
up_to-short zero e s h =
    sym (take-all (batch_limit 0 e) s (omega (arith, h, length-take (batch_limit 0 e) s)))
up_to-short (suc n) e s h =
    let size = batch_limit (suc n) e in
    let few : length s ≤ size = omega (arith, h, length-take size s) in
    take-all (suc n - e) s (omega (arith, few, h, length-take size s, (batch_limit-bound n e).0))
    ∙ sym (take-all size s few)

-- A batch that reaches the limit is the last.
pub up_to-reached :
    (limit exported : ℕ) (s : List EventRow)
    → is_reached limit (exported + length (take (batch_limit limit exported) s)) ≡ true
    → up_to limit exported s ≡ take (batch_limit limit exported) s
unfolding up_to
up_to-reached zero e s h = cc
up_to-reached (suc n) e s h =
    let size = batch_limit (suc n) e in
    let at_limit : suc n ≤ e + length (take size s) = ground (arith, h) in
    ap (λ k. take k s) (omega (arith, at_limit, length-take size s, (batch_limit-bound n e).0))

-- A full batch, and what is left after it.
pub up_to-full :
    (limit exported : ℕ) (s : List EventRow)
    → up_to limit exported s
      ≡ take (batch_limit limit exported) s
        ++ up_to limit (exported + batch_limit limit exported) (drop (batch_limit limit exported) s)
unfolding up_to
up_to-full zero e s = sym (take-drop (batch_limit 0 e) s)
  where
    take-drop : (n : ℕ) (xs : List EventRow) → take n xs ++ drop n xs ≡ xs
    take-drop zero xs = refl
    take-drop (suc n) [] = refl
    take-drop (suc n) (x ∷ xs) = ap (λ (ys : List EventRow). x ∷ ys) (take-drop n xs)
up_to-full (suc n) e s =
    let size = batch_limit (suc n) e in
    ap (λ k. take k s) (omega (arith, (batch_limit-bound n e).0))
    ∙ take_add size (suc n - (e + size)) s

pub no_rows : (s : List EventRow) (n : ℕ) → n ≢ 0 → length (take n s) ≡ 0 → s ≡ []
no_rows [] n ne h = refl
no_rows (x ∷ s) zero ne h = absurd (ne refl)
no_rows (x ∷ s) (suc n) ne h = ground (arith, h)
