-- ===== src/Paging.antt =====
-- The paging that ProblemList, ContestList, AddContest, EditContest and the submission history
-- share: the three state variables `rows`, `offset` and `hasMore`, and the handlers over them.
-- `limit` is each component's constant. Each component's own module instantiates this one.
pub mod Walk
pub mod Range
pub mod View
pub mod Controls
use campus_compile.Base.{
  ℕ, ◌+◌, ◌-◌, Bool, true, false, Option, none, some, List, [], ◌∷◌, leb, ltb, ◌==◌, length,
  if◌then◌else◌, or_default, one_of, String, str_eq,
}

pub record Pager {ℓ} (A : Type ℓ) : Type ℓ where
  pub rows : List A
  pub offset : ℕ
  pub has_more : Bool

module _ {ℓ} {A : Type ℓ} where
  -- The initial values of `useState`.
  abbrev pub fresh : Pager A
  fresh = record { rows = []; offset = 0; has_more = true }

  module _ (limit : ℕ) where
    -- The success continuation; `response.data || []` is `or_default`.
    unfoldable pub receive : ℕ → Option (List A) → Pager A → Pager A
    receive current_offset response p =
        let rows = or_default response [] in
        record { rows = rows; offset = current_offset; has_more = length rows == limit }

    -- The offset that the "Prev" handler asks for, if it asks at all; `-` is exact under the test.
    unfoldable pub prev : Pager A → Option ℕ
    prev p = if leb limit p.offset then some (p.offset - limit) else none

    unfoldable pub next : Pager A → Option ℕ
    next p = if p.has_more then some (p.offset + limit) else none

  -- What the debounced effect writes before it asks for offset 0.
  unfoldable pub rewind : Pager A → Pager A
  rewind p = record p { offset = 0; has_more = true }

  unfoldable pub display_start : Pager A → ℕ
  display_start p = if ltb 0 (length p.rows) then p.offset + 1 else 0

  unfoldable pub display_end : Pager A → ℕ
  display_end p = p.offset + length p.rows

-- The keyboard handler: nothing while an input has the focus, else the arrows page.
pub data Paged : Type 0 where
  back forth stay : Paged

unfoldable pub arrow : String → String → Paged
arrow focused key =
    if one_of focused ("INPUT" ∷ "TEXTAREA" ∷ [])
    then stay
    else if str_eq key "ArrowLeft"
    then back
    else if str_eq key "ArrowRight"
    then forth
    else stay
