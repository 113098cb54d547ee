-- ===== src/EditProblem/Screen.antt =====
-- What frontend/src/pages/EditProblem.jsx shows.
use campus_compile.Base.{
  ℕ, ◌==◌, ◌&&◌, ◌||◌, not, Bool, true, Option, some, List, [], ◌∷◌, ◌++◌, String, is_truthy,
  if◌then◌else◌,
}
use campus_compile.View.{View, label, button, shown_if}
use campus_compile.Problem.{ProblemData, Status}
use campus_compile.Problem.Accordion.{Accordion}
use campus_compile.Problem.Screen
use campus_compile.Problem.Screen.{Msg, to_step, on_cases, on_data, status_line, details, arsenal}
use campus_compile.EditProblem.{Editor, same}

pub record Page : Type 0 where
  pub user : Editor
  pub is_loading : Bool
  pub is_deleting : Bool
  pub is_submitting : Bool
  pub step : ℕ
  pub status : Status
  pub problem_data : ProblemData
  pub accordion : Accordion

-- The controls that write the form; the others call the page's handlers.
unfoldable pub update : Msg → Page → Page
unfolding on_cases on_data
update (to_step n) p = record p { step = n }
update m p = record p {
  accordion = on_cases m p.accordion;
  problem_data = on_data m p.problem_data;
}

-- Whether the page has a button that deletes the problem.
unfoldable pub shows_delete : Editor → ProblemData → Bool
shows_delete user d = same user.role "admin" || (same user.role "professor" && not d.is_public)

unfoldable pub delete_button : Page → List (View Msg)
unfolding shows_delete
delete_button p = shown_if (shows_delete p.user p.problem_data) (
    button (if p.is_deleting then "Erasing..." else "Delete Problem") p.is_deleting Screen.delete
    ∷ [])

module _ (show_time show_memory : Option ℕ → String)
    (read_time read_memory : String → Option ℕ) where
  unfoldable pub view : Page → List (View Msg)
  unfolding details arsenal delete_button
  view p =
      if p.is_loading
      then label "Loading Problem Data..." ∷ []
      else shown_if (is_truthy (some p.status.message)) (status_line p.status)
        ++ shown_if (p.step == 1) (
            details show_time show_memory read_time read_memory "Edit Problem" [] (delete_button p)
              "Edit Test Cases →" p.problem_data)
        ++ shown_if (p.step == 2) (arsenal true "Save All Changes" p.is_submitting p.accordion)
