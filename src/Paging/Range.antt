-- ===== src/Paging/Range.antt =====
-- What the numbers "Showing start - end" and the row numbers say of the server's table.
use campus_compile.Base.{
  ℕ, ◌+◌, ◌≤◌, ◌<◌, ◌≡◌, Option, some, List, arith, length, get_elem?, get_elem?-take-drop,
}
use campus_compile.Paging.{Pager, receive, next, prev, display_start, display_end}
use campus_compile.Paging.Walk.{page_at, length-serve}

-- "Prev" on the page that "Next" asked for asks for the page that was left, whatever the server
-- answered in between.
pub prev-next :
    {A : Type 0} (limit : ℕ) (p q : Pager A) (response : Option (List A)) (o : ℕ)
    → next limit p ≡ some o
    → prev limit (receive limit o response q) ≡ some p.offset
unfolding next prev receive
prev-next limit p q response o asked = ground arith

module _ {A : Type 0} (limit : ℕ) (all : List A) where
  -- Over a fixed table, a page that shows a row says "Showing start - end" with start and end the
  -- positions, counted from 1, of its first and last rows, within the table; the row shown at i is
  -- the table's row at offset + i.
  pub display_range :
      (offset : ℕ)
      → 0 < length (page_at limit all offset).rows
      → (display_start (page_at limit all offset) ≡ offset + 1)
        × (display_end (page_at limit all offset) ≤ length all)
        × ((i : ℕ)
            → i < length (page_at limit all offset).rows
            → get_elem? (page_at limit all offset).rows i ≡ get_elem? all (offset + i))
  unfolding display_start display_end receive
  display_range offset shown = (
    ground arith,
    omega (arith, length-serve limit all offset),
    λ i h. get_elem?-take-drop i limit offset all (omega (arith, length-serve limit all offset)),
  )
