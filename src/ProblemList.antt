-- ===== src/ProblemList.antt =====
-- The problem list's state and handlers: frontend/src/pages/ProblemList.jsx. A handler returns the
-- new state and the request that it sends. Rows are of any type; a response is `none` for `null`.
pub mod AsView
pub mod Screen
use mathlib.Core.Option
use campus_compile.Base.{
  ℕ, Bool, true, false, Option, none, some, List, [], ◌∷◌, ◌||◌, String, str_eq, ◌==◌,
  if◌then◌else◌,
}
use campus_compile.Paging.{
  Pager, fresh, receive, prev, next, rewind, Paged, back, forth, stay, arrow,
}
use campus_compile.Paging.View.{Query}

pub record ProblemList (A : Type 0) : Type 0 where
  pub problems : Pager A
  pub loading : Bool
  pub view_mode : String
  pub search_query : String

abbrev pub limit : ℕ
limit = 25

-- `userRole?.toLowerCase()` is given: the stored role in lower case, `none` when there is none.
unfoldable pub can_add_problem : Option String → Bool
can_add_problem none = false
can_add_problem (some role) = str_eq role "admin" || str_eq role "professor"

module _ {A : Type 0} where
  abbrev pub initial : ProblemList A
  initial = record { problems = fresh; loading = true; view_mode = "public"; search_query = "" }

  unfoldable pub fetch_problems : ℕ → String → ProblemList A → ProblemList A × Query
  fetch_problems current_offset query s = (
    (if current_offset == 0 then record s { loading = true } else s),
    record {
      endpoint = if str_eq s.view_mode "faculty" then "/faculty/problems" else "/problems";
      limit = limit;
      offset = current_offset;
      search = query;
      view_mode = none;
    },
  )

  unfoldable pub on_response : ℕ → Option (List A) → ProblemList A → ProblemList A
  on_response current_offset rows s = record s {
    problems = receive limit current_offset rows s.problems;
    loading = false;
  }

  unfoldable pub on_error : ProblemList A → ProblemList A
  on_error s = record s { loading = false }

  -- The timer of the effect on `searchQuery` and `viewMode`.
  unfoldable pub on_debounce : ProblemList A → ProblemList A × Query
  unfolding fetch_problems
  on_debounce s = fetch_problems 0 s.search_query (record s { problems = rewind s.problems })

  -- A page that the user turns to, or none.
  pub turn : Option ℕ → ProblemList A → ProblemList A × Option Query
  turn none s = (s, none)
  turn (some offset) s = let (s', q) = fetch_problems offset s.search_query s in (s', some q)

  unfoldable pub handle_prev : ProblemList A → ProblemList A × Option Query
  unfolding turn fetch_problems
  handle_prev s = turn (prev limit s.problems) s

  unfoldable pub handle_next : ProblemList A → ProblemList A × Option Query
  unfolding turn fetch_problems
  handle_next s = turn (next limit s.problems) s

  unfoldable pub handle_key_down : String → String → ProblemList A → ProblemList A × Option Query
  unfolding handle_prev handle_next
  handle_key_down focused key s = elim (arrow focused key) [
    | back ↦ handle_prev s
    | forth ↦ handle_next s
    | stay ↦ (s, none)
  ]
