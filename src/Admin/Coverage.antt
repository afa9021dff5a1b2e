-- ===== src/Admin/Coverage.antt =====
-- The pages of a list together (services/admin/app), each read by a query of its own.
use Prim.Native.Nat.{◌^◌}
use my_go_market.Prelude.{
  ℕ, zero, suc, ◌+◌, ◌-◌, ◌*◌, ◌%◌, ◌≤◌, ◌<◌, List, [], ◌∷◌, ◌++◌, ◌≡◌, refl, sym, ap, ◌∙◌, arith,
  take, drop, if◌then◌else◌, ltb, take_add, take-all,
}
use my_go_market.Prelude.Int.{pos}
use my_go_market.Web.{pagination, page_offset}
use my_go_market.Table.{where_rows}
use my_go_market.Admin.Filters.{Query, OrderDesc, show_rows, list_page}
use my_go_market.Table.Keyed.{AreKeyed}
use my_go_market.Admin.Newest.{AreNewestFirst, length-perm, sorted_unique}
use mathlib.Core.List.{Permᴰ}

module _ {R V : Type 0} (view : R → V) where
  show_rows-append :
      (xs ys : List R) → show_rows view (xs ++ ys) ≡ show_rows view xs ++ show_rows view ys
  unfolding show_rows
  show_rows-append [] ys = refl
  show_rows-append (x ∷ xs) ys = ap (λ (vs : List V). view x ∷ vs) (show_rows-append xs ys)

unwrapped : (m : ℕ) → m < 2 ^ 63 → (let n = m % 2 ^ 64 in if ltb n (2 ^ 63) then n else 0) ≡ m
unwrapped m h = grind arith

product : (n size : ℕ) → suc n * size ≡ n * size + size
product n size = grind arith

page_offset_lem : (n size : ℕ) → n * size < 2 ^ 63 → page_offset (pos (suc n)) (pos size) ≡ n * size
unfolding page_offset
page_offset_lem n size h =
    let before : suc n - 1 ≡ n = omega arith in
    ap (λ (k : ℕ). let m = (k * size) % 2 ^ 64 in if ltb m (2 ^ 63) then m else 0) before
    ∙ unwrapped (n * size) h

pagination_lem :
    (n size : ℕ)
    → 0 < size
    → size ≤ 100
    → pagination (pos (suc n)) (pos size) ≡ (pos (suc n), pos size)
unfolding pagination
pagination_lem n size positive small = ground arith

-- What the documentation of PostgreSQL says of ORDER BY time DESC: the rows of the query, each as often,
-- and none before a newer one. Each query may order equal times in its own way.
pub record IsOrderDesc {R : Type 0} (order_desc : OrderDesc R) (time : R → ℕ) : Type 0 where
  pub same_rows : (rows : List R) → Permᴰ (order_desc time rows) rows
  pub newest : (rows : List R) → AreNewestFirst time (order_desc time rows)

-- The pages of one list: each page is a query of its own, `by n` the order of the rows in the n-th.
module _ {R V : Type 0} (by : ℕ → OrderDesc R) (time : R → ℕ) (view : R → V) (q : Query R)
    (rows : List R) where
  -- The items of the first pages of a size, one page after another.
  unfoldable pub first_pages : (pages size : ℕ) → List V
  first_pages zero size = []
  first_pages (suc n) size =
      first_pages n size ++ (list_page (by n) time view (pos (suc n)) (pos size) q rows).items

  page_items :
      (n size : ℕ)
      → 0 < size
      → size ≤ 100
      → suc n * size < 2 ^ 63
      → (list_page (by n) time view (pos (suc n)) (pos size) q rows).items
        ≡ show_rows view (take size (drop (n * size) (by n time (where_rows q rows))))
  unfolding list_page
  page_items n size positive small bounded =
      let sorted = by n time (where_rows q rows) in
      rw (pagination_lem n size positive small) (
        ap (λ (m : ℕ). show_rows view (take size (drop m sorted)))
          (page_offset_lem n size (omega (arith, product n size, bounded))))

  -- Where every query gives the matching rows in this order.
  first_pages-take :
      (sorted : List R) (n size : ℕ)
      → ((i : ℕ) → by i time (where_rows q rows) ≡ sorted)
      → 0 < size
      → size ≤ 100
      → n * size < 2 ^ 63
      → first_pages n size ≡ show_rows view (take (n * size) sorted)
  unfolding first_pages show_rows
  first_pages-take sorted zero size alike positive small bounded =
      let none_yet : 0 ≡ 0 * size = omega arith in
      ap (λ (m : ℕ). show_rows view (take m sorted)) none_yet
  first_pages-take sorted (suc n) size alike positive small bounded =
      let fewer : n * size < 2 ^ 63 = omega (arith, product n size, bounded) in
      ap (λ (vs : List V). vs ++ (list_page (by n) time view (pos (suc n)) (pos size) q rows).items)
        (first_pages-take sorted n size alike positive small fewer)
      ∙ ap (λ (vs : List V). show_rows view (take (n * size) sorted) ++ vs)
          (page_items n size positive small bounded
            ∙ ap (λ (rs : List R). show_rows view (take size (drop (n * size) rs))) (alike n))
      ∙ sym (show_rows-append view (take (n * size) sorted) (take size (drop (n * size) sorted)))
      ∙ ap (show_rows view) (sym (take_add (n * size) size sorted))
      ∙ ap (λ (m : ℕ). show_rows view (take m sorted)) (sym (product n size))

  -- For any list of rows and any conditions that no two rows of the same time meet, whatever order the
  -- database gives to equal times in each query, and a size from 1 to 100: pages 1, 2, ... that are
  -- enough for the total that each page reports show, one after another, every row that meets the
  -- conditions, as often as the table has it, the newest first. (Their number times their size is less
  -- than 2 ^ 63.)
  pub pages_cover :
      (n size : ℕ)
      → ((i : ℕ) → IsOrderDesc (by i) time)
      → AreKeyed time (where_rows q rows)
      → 0 < size
      → size ≤ 100
      → n * size < 2 ^ 63
      → (list_page (by 0) time view (pos 1) (pos size) q rows).total ≤ n * size
      → (sorted : List R) × Permᴰ sorted (where_rows q rows)
        × AreNewestFirst time sorted
        × (first_pages n size ≡ show_rows view sorted)
  unfolding list_page
  pages_cover n size sorts apart positive small bounded enough =
      let matching = where_rows q rows in
      let sorted = by 0 time matching in
      let same : Permᴰ sorted matching = (sorts 0).same_rows matching in
      let alike : (i : ℕ) → by i time matching ≡ sorted = λ i.
        sorted_unique time (by i time matching) sorted matching ((sorts i).same_rows matching)
          ((sorts i).newest matching) same ((sorts 0).newest matching) apart in
      (
        sorted,
        same,
        (sorts 0).newest matching,
        first_pages-take sorted n size alike positive small bounded
            ∙ ap (show_rows view)
                (take-all (n * size) sorted (omega (arith, length-perm same, enough))),
      )
