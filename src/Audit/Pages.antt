-- ===== src/Audit/Pages.antt =====
-- The batches of an export, one after another (common/audit/export.go, ExportCSV).
use my_go_market.Prelude.{
  ℕ, zero, suc, ◌<◌, Bool, true, false, Option, none, some, List, [], ◌∷◌, ◌≡◌, refl, ◌&&◌, inl,
  inr, length, take, drop, arith, ap, ◌∙◌, All, Bool-cases,
}
use my_go_market.Table.{where_rows}
use my_go_market.Audit.Export.{
  EventRow, Cursor, ExportFilter, cursor_of, after, in_order, after_cursor, passes_filter,
  apply_export_filter, last_cursor,
}
use my_go_market.Audit.Order.{
  Ascending, IsKeyed, after_trans, after_irrefl, after_asym, in_order-Ascending, where-Ascending,
}

-- The rows that an export from a cursor is to write, without its limit.
unfoldable pub to_export : ExportFilter → Option Cursor → List EventRow → List EventRow
unfolding where_rows
to_export f c rows = where_rows (apply_export_filter f c) (in_order rows)

-- A row before the others is before the cursor that some of them leave.
last_cursor-before :
    (x y : EventRow) (ys : List EventRow) (n : ℕ)
    → after (cursor_of x) y ≡ true
    → Ascending (y ∷ ys)
    → after_cursor (last_cursor (some (cursor_of y)) (take n ys)) x ≡ false
unfolding last_cursor
last_cursor-before x y ys zero h a = after_asym x y h
last_cursor-before x y [] (suc n) h a = after_asym x y h
last_cursor-before x y (z ∷ zs) (suc n) h ((k, before), a) =
    last_cursor-before x z zs n (after_trans (cursor_of x) y z h k) a

where-All :
    (p : EventRow → Bool) (xs : List EventRow)
    → All (λ (x : EventRow). p x ≡ true) xs
    → where_rows p xs ≡ xs
unfolding where_rows
where-All p [] ps = refl
where-All p (x ∷ xs) (h, ps) = rw h (ap (λ (ys : List EventRow). x ∷ ys) (where-All p xs ps))

-- After the cursor that a batch leaves come the rows that it did not take.
where-last_cursor :
    (x : EventRow) (xs : List EventRow) (n : ℕ)
    → Ascending (x ∷ xs)
    → where_rows (after_cursor (last_cursor (some (cursor_of x)) (take n xs))) (x ∷ xs) ≡ drop n xs
unfolding where_rows last_cursor
where-last_cursor x xs zero (before, a) =
    rw (after_irrefl x) (where-All (after (cursor_of x)) xs before)
where-last_cursor x [] (suc n) a = rw (after_irrefl x) refl
where-last_cursor x (y ∷ ys) (suc n) ((h, before), a) =
    rw (last_cursor-before x y ys n h a) (where-last_cursor y ys n a)

-- What is after the cursor that a batch leaves is after the cursor that it began from.
last_cursor-after :
    (c : Option Cursor) (xs : List EventRow) (n : ℕ) (r : EventRow)
    → Ascending xs
    → All (λ (x : EventRow). after_cursor c x ≡ true) xs
    → after_cursor (last_cursor c (take n xs)) r ≡ true
    → after_cursor c r ≡ true
unfolding last_cursor
last_cursor-after c xs zero r a ps h = h
last_cursor-after c [] (suc n) r a ps h = h
last_cursor-after c (x ∷ xs) (suc n) r (before, a) (p, ps) h =
    from c p (last_cursor-after (some (cursor_of x)) xs n r a before h)
  where
    from :
        (c : Option Cursor)
        → after_cursor c x ≡ true
        → after (cursor_of x) r ≡ true
        → after_cursor c r ≡ true
    from none p k = refl
    from (some c) p k = after_trans c x r p k

All-to_export :
    (f : ExportFilter) (c : Option Cursor) (rows : List EventRow)
    → All (λ (x : EventRow). after_cursor c x ≡ true) (where_rows (apply_export_filter f c) rows)
unfolding where_rows apply_export_filter
All-to_export f c [] = tt
All-to_export f c (x ∷ rows) = elim (Bool-cases (passes_filter f x && after_cursor c x)) [
  | inl keep ↦ rw keep (ground (arith, keep), All-to_export f c rows)
  | inr skip ↦ rw skip (All-to_export f c rows)
]

-- A later cursor, on the rows after an earlier one.
where-where :
    (f : ExportFilter) (c d : Option Cursor) (rows : List EventRow)
    → ((r : EventRow) → after_cursor d r ≡ true → after_cursor c r ≡ true)
    → where_rows (apply_export_filter f d) rows
      ≡ where_rows (after_cursor d) (where_rows (apply_export_filter f c) rows)
unfolding where_rows apply_export_filter
where-where f c d [] h = refl
where-where f c d (x ∷ rows) h = elim (Bool-cases (passes_filter f x)) [
  | inr skip ↦ rw skip (where-where f c d rows h)
  | inl keep ↦ elim (Bool-cases (after_cursor d x)) [
    | inl later ↦
        rw (keep, h x later)
          (rw later (ap (λ (ys : List EventRow). x ∷ ys) (where-where f c d rows h)))
    | inr earlier ↦ elim (Bool-cases (after_cursor c x)) [
      | inl here ↦ rw (keep, here) (rw earlier (where-where f c d rows h))
      | inr gone ↦ rw (keep, gone) (rw earlier (where-where f c d rows h))
    ]
  ]
]

-- What is left to export after a batch.
pub to_export-last_cursor :
    (f : ExportFilter) (c : Option Cursor) (rows : List EventRow) (n : ℕ)
    → IsKeyed rows
    → 0 < n
    → 0 < length (to_export f c rows)
    → to_export f (last_cursor c (take n (to_export f c rows))) rows ≡ drop n (to_export f c rows)
unfolding to_export last_cursor
to_export-last_cursor f c rows n keyed pos_n full =
    let s = to_export f c rows in
    let a : Ascending s =
      where-Ascending (apply_export_filter f c) (in_order rows) (in_order-Ascending rows keyed) in
    let within = All-to_export f c (in_order rows) in
    where-where f c (last_cursor c (take n s)) (in_order rows)
      (λ r h. last_cursor-after c s n r a within h)
    ∙ split s n a pos_n full
  where
    split :
        (s : List EventRow) (n : ℕ)
        → Ascending s
        → 0 < n
        → 0 < length s
        → where_rows (after_cursor (last_cursor c (take n s))) s ≡ drop n s
    split [] n a p q = absurd (omega (arith, q))
    split (x ∷ xs) zero a p q = absurd (omega (arith, p))
    split (x ∷ xs) (suc n) a p q = where-last_cursor x xs n a
