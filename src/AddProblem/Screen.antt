-- ===== src/AddProblem/Screen.antt =====
-- What frontend/src/pages/AddProblem.jsx shows to an authorized visitor.
pub mod Ready
pub mod Reached
use campus_compile.Base.{
  ℕ, ◌==◌, ◌&&◌, not, Bool, false, Option, none, some, List, [], ◌∷◌, ◌++◌, String, is_truthy, leb,
  length, if◌then◌else◌,
}
use campus_compile.View.{View, label, link, button, input, shown_if}
use campus_compile.Problem.Accordion.{Accordion}
use campus_compile.Problem.Screen
use campus_compile.Problem.Screen.{
  Msg, to_step, copy, reset, go, on_cases, on_data, status_line, details, arsenal,
}
use campus_compile.AddProblem.{Page}

-- The controls that write the form; the others call the page's handlers.
unfoldable pub update : Msg → Page → Page
unfolding on_cases on_data
update (to_step n) p = record p { step = n }
update m p = record p {
  accordion = on_cases m p.accordion;
  problem_data = on_data m p.problem_data;
}

-- A case may be removed while there is another.
abbrev pub can_remove : Accordion → Bool
can_remove a = leb 2 (length a.test_cases)

unfoldable pub success_modal : Page → List (View Msg)
success_modal p = shown_if p.show_success_modal (
    label "Problem Forged!"
    ∷ label "Your challenge is now live. Share this secure link with your students."
    ∷ label p.published_url
    ∷ button "" false copy
    ∷ button "Create Another" false reset
    ∷ button "Go to Arena" false go
    ∷ [])

module _ (show_time show_memory : Option ℕ → String)
    (read_time read_memory : String → Option ℕ) where
  unfoldable pub view : Page → List (View Msg)
  unfolding details arsenal success_modal
  view p =
      shown_if (is_truthy (some p.status.message) && not p.show_success_modal)
        (status_line p.status)
      ++ shown_if (p.step == 1) (
          details show_time show_memory read_time read_memory "Forge New Problem"
            (link "https://katex.org/docs/supported.html" "Math Guide" ∷ []) []
            "Next: Setup Test Cases →" p.problem_data)
      ++ shown_if (p.step == 2)
          (arsenal (can_remove p.accordion) "Finalize & Publish" p.is_submitting p.accordion)
      ++ success_modal p
