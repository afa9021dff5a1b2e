-- ===== src/Audit/Order.antt =====
-- The order of audit events by time and id (common/audit/export.go).
use my_go_market.Prelude.{
  suc, ◌≤◌, Bool, true, false, List, [], ◌∷◌, ◌≡◌, ◌≢◌, refl, inl, inr, length, drop, arith, ap,
  ◌∙◌, All, Bool-cases, ==_iff,
}
use my_go_market.Table.{where_rows}
use my_go_market.Audit.Export.{EventRow, Cursor, cursor_of, after, insert_row, in_order}

pub after_trans :
    (c : Cursor) (x y : EventRow)
    → after c x ≡ true
    → after (cursor_of x) y ≡ true
    → after c y ≡ true
unfolding after
after_trans c x y h k = ground (arith, h, k)

pub after_irrefl : (x : EventRow) → after (cursor_of x) x ≡ false
unfolding after
after_irrefl x = ground arith

pub after_asym : (x y : EventRow) → after (cursor_of x) y ≡ true → after (cursor_of y) x ≡ false
unfolding after
after_asym x y h = ground (arith, h)

after_total :
    (x y : EventRow)
    → x.event_id ≢ y.event_id
    → after (cursor_of x) y ≡ false
    → after (cursor_of y) x ≡ true
unfolding after
after_total x y ne h = ground (arith, ne, h, ==_iff x.event_id y.event_id)

-- Each row is before all that follow it.
abbrev pub Ascending : List EventRow → Type 0
Ascending [] = Unit
Ascending (x ∷ xs) = All (λ (y : EventRow). after (cursor_of x) y ≡ true) xs × Ascending xs

-- No two rows have one id.
abbrev pub IsKeyed : List EventRow → Type 0
IsKeyed [] = Unit
IsKeyed (x ∷ xs) = All (λ (y : EventRow). x.event_id ≢ y.event_id) xs × IsKeyed xs

All-insert_row :
    (P : EventRow → Type 0) (x : EventRow) (ys : List EventRow)
    → P x
    → All P ys
    → All P (insert_row x ys)
unfolding insert_row
All-insert_row P x [] p ps = (p, tt)
All-insert_row P x (y ∷ ys) p (q, qs) = elim (Bool-cases (after (cursor_of x) y)) [
  | inl first ↦ rw first (p, (q, qs))
  | inr later ↦ rw later (q, All-insert_row P x ys p qs)
]

All-in_order : (P : EventRow → Type 0) (xs : List EventRow) → All P xs → All P (in_order xs)
unfolding in_order
All-in_order P [] ps = tt
All-in_order P (x ∷ xs) (p, ps) = All-insert_row P x (in_order xs) p (All-in_order P xs ps)

All-after :
    (c : Cursor) (y : EventRow) (ys : List EventRow)
    → after c y ≡ true
    → All (λ (z : EventRow). after (cursor_of y) z ≡ true) ys
    → All (λ (z : EventRow). after c z ≡ true) ys
All-after c y [] h ps = tt
All-after c y (z ∷ zs) h (p, ps) = (after_trans c y z h p, All-after c y zs h ps)

insert_row-Ascending :
    (x : EventRow) (ys : List EventRow)
    → All (λ (y : EventRow). x.event_id ≢ y.event_id) ys
    → Ascending ys
    → Ascending (insert_row x ys)
unfolding insert_row
insert_row-Ascending x [] ne a = (tt, tt)
insert_row-Ascending x (y ∷ ys) (n, ne) (before, a) = elim (Bool-cases (after (cursor_of x) y)) [
  | inl first ↦ rw first ((first, All-after (cursor_of x) y ys first before), (before, a))
  | inr later ↦ rw later (
    All-insert_row (λ (z : EventRow). after (cursor_of y) z ≡ true) x ys (after_total x y n later)
        before,
    insert_row-Ascending x ys ne a,
  )
]

pub in_order-Ascending : (xs : List EventRow) → IsKeyed xs → Ascending (in_order xs)
unfolding in_order
in_order-Ascending [] k = tt
in_order-Ascending (x ∷ xs) (ne, k) =
    insert_row-Ascending x (in_order xs)
      (All-in_order (λ (y : EventRow). x.event_id ≢ y.event_id) xs ne) (in_order-Ascending xs k)

length-insert_row : (x : EventRow) (ys : List EventRow) → length (insert_row x ys) ≡ suc (length ys)
unfolding insert_row
length-insert_row x [] = refl
length-insert_row x (y ∷ ys) = ground (arith, length-insert_row x ys)

pub length-in_order : (xs : List EventRow) → length (in_order xs) ≡ length xs
unfolding in_order
length-in_order [] = refl
length-in_order (x ∷ xs) = length-insert_row x (in_order xs) ∙ ap suc (length-in_order xs)

All-where :
    (P : EventRow → Type 0) (p : EventRow → Bool) (xs : List EventRow)
    → All P xs
    → All P (where_rows p xs)
unfolding where_rows
All-where P p [] ps = tt
All-where P p (x ∷ xs) (q, qs) = elim (Bool-cases (p x)) [
  | inl keep ↦ rw keep (q, All-where P p xs qs)
  | inr drop ↦ rw drop (All-where P p xs qs)
]

pub where-Ascending :
    (p : EventRow → Bool) (xs : List EventRow) → Ascending xs → Ascending (where_rows p xs)
unfolding where_rows
where-Ascending p [] a = tt
where-Ascending p (x ∷ xs) (before, a) = elim (Bool-cases (p x)) [
  | inl keep ↦ rw keep (
    All-where (λ (y : EventRow). after (cursor_of x) y ≡ true) p xs before,
    where-Ascending p xs a,
  )
  | inr drop ↦ rw drop (where-Ascending p xs a)
]

pub length-where : (p : EventRow → Bool) (xs : List EventRow) → length (where_rows p xs) ≤ length xs
unfolding where_rows
length-where p [] = omega arith
length-where p (x ∷ xs) = ground (arith, length-where p xs)
