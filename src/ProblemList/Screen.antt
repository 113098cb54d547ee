-- ===== src/ProblemList/Screen.antt =====
-- What frontend/src/pages/ProblemList.jsx shows.
use campus_compile.Base.{
  ℕ, ◌+◌, Bool, false, Option, List, [], ◌∷◌, ◌++◌, String, str_eq, template, decimal,
  if◌then◌else◌,
}
use campus_compile.Paging.{Pager}
use campus_compile.Paging.Controls.{has_turns, turn_buttons}
use campus_compile.View.{View, label, link, button, input, shown_if}
use campus_compile.ProblemList.{ProblemList, can_add_problem}

pub record Problem : Type 0 where
  pub problem_id : String
  pub title : String
  pub difficulty : String
  pub is_public : Bool

pub data Msg : Type 0 where
  search : String → Msg
  show_view : String → Msg
  forge prev_page next_page : Msg

-- The writes of the controls; the other three navigate or send requests.
unfoldable pub update : Msg → ProblemList Problem → ProblemList Problem
update (search value) s = record s { search_query = value }
update (show_view mode) s = record s { view_mode = mode }
update _ s = s

-- The rows from a number on.
unfoldable pub rows : Bool → ℕ → List Problem → List (View Msg)
rows faculty n [] = []
rows faculty n (p ∷ ps) =
    label (decimal n)
      ∷ label p.title
      ∷ shown_if faculty (label (if p.is_public then "● LIVE" else "○ DRAFT") ∷ [])
    ++ label p.difficulty
      ∷ shown_if faculty (link (template ("/edit-problem/" ∷ p.problem_id ∷ [])) "Edit" ∷ [])
    ++ link (template ("/arena/" ∷ p.problem_id ∷ [])) "Solve" ∷ rows faculty (n + 1) ps

unfoldable pub table : Bool → Pager Problem → List Problem → List (View Msg)
unfolding rows
table faculty p [] =
    label (
      if faculty
      then "You haven't forged any problems yet."
      else "No problems have been forged yet.")
    ∷ []
table faculty p (prob ∷ probs) = rows faculty (p.offset + 0 + 1) (prob ∷ probs)

unfoldable pub view : Option String → ProblemList Problem → List (View Msg)
unfolding table can_add_problem
view role s =
    input s.search_query false search
      ∷ (if can_add_problem role
          then button "Published Problems" false (show_view "public")
            ∷ button "Problems Created" false (show_view "faculty")
            ∷ []
          else label "Problem Repository" ∷ [])
    ++ shown_if (can_add_problem role) (button "+ Forge Problem" false forge ∷ [])
    ++ label "#"
      ∷ label "Title"
      ∷ label "Difficulty"
      ∷ label "Action"
      ∷ (if s.loading
          then label "Loading problems..." ∷ []
          else table (str_eq s.view_mode "faculty") s.problems s.problems.rows
            ++ shown_if (has_turns s.problems) (turn_buttons prev_page next_page s.problems))
