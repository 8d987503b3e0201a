-- ===== src/Paging/Laws.antt =====
-- Which of the matching rows stand on which page, by src/common/dto/paginated.ts.
use Prim.Native.Nat.{min}
use native.Mathlib.Nat.{div-add-mod, mod-lt, div-lt_iff_lt-mul}
use ventura_api.Common.{
  ℕ, zero, suc, ◌+◌, ◌-◌, ◌*◌, ◌/◌, ◌%◌, ◌≤◌, ◌<◌, ◌≡◌, refl, ap, ◌∙◌, Option, none, some, List,
  arith, get_elem?, get_elem?-take, get_elem?-drop, length-take-drop, length, drop, All, All-take,
  All-drop,
}
use ventura_api.Common.Int.{ℤ, pos, negsuc}
use ventura_api.Paging.{normalize_paging, paged, ceil_div, positive_or}

positive_or_pos : (o : Option ℤ) (d : ℕ) → 1 ≤ d → 1 ≤ positive_or o d
positive_or_pos none d h = h
positive_or_pos (some (pos zero)) d h = h
positive_or_pos (some (pos (suc n))) d h = omega arith
positive_or_pos (some (negsuc n)) d h = h

skip_add : (p l : ℕ) → 1 ≤ p → (p - 1) * l + l ≡ p * l
skip_add zero l h = elim h [ ]
skip_add (suc p) l h = let e : suc p - 1 ≡ p = omega arith in rw e (omega arith)

-- Whatever the inputs, the page is at least 1, the limit is between 1 and 100, and the rows skipped
-- are those of the pages before: skip + limit = page * limit.
pub normalize_paging_bounds :
    (page limit : Option ℤ)
    → let p = normalize_paging page limit in
      (1 ≤ p.page) × (1 ≤ p.limit) × (p.limit ≤ 100) × (p.skip + p.limit ≡ p.page * p.limit)
unfolding normalize_paging
normalize_paging_bounds page limit =
    let h = positive_or_pos page 1 (omega arith) in
    let k = positive_or_pos limit 20 (omega arith) in
    (h, omega arith, omega arith, skip_add (positive_or page 1) (min (positive_or limit 20) 100) h)

-- `ceil_div` is the ceiling: the pages hold all rows, and one page fewer would not.
ceil_div_bounds : (a b : ℕ) → 1 ≤ b → (a ≤ ceil_div a b * b) × (ceil_div a b * b < a + b)
ceil_div_bounds a b h =
    let e = div-add-mod (a + b - 1) b in let m = mod-lt (a + b - 1) h in (omega arith, omega arith)

-- A page reports the number of matching rows and enough pages to hold them, but no page more, and
-- it has limit rows, or those that are left after the pages before.
pub paged_lem :
    {T : Type 0} (page limit : Option ℤ) (rows : List T)
    → let r = paged page limit rows in
      (r.meta.total ≡ length rows)
      × (r.meta.total ≤ r.meta.total_pages * r.meta.limit)
      × (r.meta.total_pages * r.meta.limit < r.meta.total + r.meta.limit)
      × (length r.rows ≡ min r.meta.limit (r.meta.total - (r.meta.page - 1) * r.meta.limit))
unfolding paged
paged_lem page limit rows =
    let p = normalize_paging page limit in
    let b = normalize_paging_bounds page limit in
    let c = ceil_div_bounds (length rows) p.limit b.1 in
    (refl, c.0, c.1, length-take-drop p.limit p.skip rows)

-- Row j of a page is the matching row number (page - 1) * limit + j.
pub paged_row :
    {T : Type 0} (page limit : Option ℤ) (rows : List T) (j : ℕ)
    → j < (paged page limit rows).meta.limit
    → let r = paged page limit rows in
      get_elem? r.rows j ≡ get_elem? rows ((r.meta.page - 1) * r.meta.limit + j)
unfolding paged
paged_row page limit rows j h =
    let p = normalize_paging page limit in
    get_elem?-take p.limit (drop p.skip rows) j h ∙ get_elem?-drop p.skip rows j

index_of_page : (i l : ℕ) → (suc (i / l) - 1) * l + i % l ≡ i
index_of_page i l =
    let e : suc (i / l) - 1 ≡ i / l = omega arith in rw e (omega (arith, div-add-mod i l))

page_le : (i l c : ℕ) → 1 ≤ l → i < c * l → suc (i / l) ≤ c
page_le i l c p h = (div-lt_iff_lt-mul p).1 h

-- Every matching row stands on one of the reported pages: row i on page i / limit + 1.
pub row_on_page :
    {T : Type 0} (limit : Option ℤ) (rows : List T) (i : ℕ)
    → i < length rows
    → let l = (normalize_paging none limit).limit in
      let r = paged (some (pos (suc (i / l)))) limit rows in
      (get_elem? r.rows (i % l) ≡ get_elem? rows i) × (r.meta.page ≤ r.meta.total_pages)
unfolding paged
row_on_page limit rows i h =
    let b = normalize_paging_bounds none limit in
    let l = (normalize_paging none limit).limit in
    let c = ceil_div_bounds (length rows) l b.1 in
    let n : length rows ≤ ceil_div (length rows) l * l = c.0 in
    (
      paged_row (some (pos (suc (i / l)))) limit rows (i % l) (mod-lt i b.1)
          ∙ ap (get_elem? rows) (index_of_page i l),
      page_le i l (ceil_div (length rows) l) b.1 (omega arith),
    )

-- what holds of every matching row holds of every row on a page
pub paged-All :
    {T : Type 0} (P : T → Type 0) (page limit : Option ℤ) (rows : List T)
    → All P rows
    → All P (paged page limit rows).rows
unfolding paged
paged-All P page limit rows h =
    let p = normalize_paging page limit in
    All-take P p.limit (drop p.skip rows) (All-drop P p.skip rows h)
