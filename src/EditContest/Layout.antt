-- ===== src/EditContest/Layout.antt =====
-- What frontend/src/pages/EditContest.jsx shows once its contest is loaded.
pub mod Lock
use campus_compile.Base.{
  ℕ, Bool, true, false, not, ◌&&◌, ◌||◌, Option, none, some, List, [], ◌∷◌, ◌++◌, String, str_eq,
  template, ◌==◌, ltb, if◌then◌else◌,
}
use campus_compile.View.{View, label, button, shown_if, wrap}
use campus_compile.ContestForm.{Page, Form}
use campus_compile.ContestForm.Rules.{Field, get_rule_value}
use campus_compile.ContestForm.Screens
use campus_compile.ContestForm.Screens.{screen, back_button, next}
use campus_compile.EditContest.{is_time_locked}

pub data Msg : Type 0 where
  form : Screens.Msg → Msg
  save delete : Msg

abbrev is_role : Option String → String → Bool
is_role none r = false
is_role (some role) r = str_eq role r

-- The test that shows the deletion.
unfoldable pub can_delete : Option String → Form → Bool
can_delete role f = is_role role "admin" || is_role role "professor" && not f.is_public

unfoldable pub footer : ℕ → Option String → Bool → Page → List (View Msg)
unfolding wrap can_delete
footer now role saving s =
    if is_time_locked now role s.form_data
    then label "🔒 Time Lock Active: This contest has already started and cannot be modified." ∷ []
    else wrap form (back_button s)
      ++ shown_if (can_delete role s.form_data) (button "Delete Arena" saving delete ∷ [])
      ++ (if ltb s.current_step 3
          then button "Next Step" false (form next)
          else button (if saving then "Saving Arena..." else "Update Contest") saving save)
        ∷ []

-- The text in a rule's input.
abbrev pub shown_rule : Page → Field → String
shown_rule s field = get_rule_value field s.form_data.access_rules

abbrev pub empty_text : String
empty_text = "No problems found in your workspace."

module _ (show_date : Option ℕ → String) (read_date : String → Option ℕ) where
  unfoldable pub view : ℕ → Option String → Bool → Page → List (View Msg)
  unfolding footer screen wrap
  view now role saving s =
      label "Configure Contest"
        ∷ label (template ("Update rules, timings, and problems for " ∷ s.form_data.title ∷ []))
        ∷ wrap form (screen show_date read_date (shown_rule s) empty_text s)
      ++ footer now role saving s
