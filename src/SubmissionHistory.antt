-- ===== src/SubmissionHistory.antt =====
-- The submission history: frontend/src/pages/Arena/SubmissionHistory.jsx. The rows and the paging are
-- the engine's; the component's own state is the submission in its modal.
use mathlib.Core.Option
use campus_compile.Base.{
  Bool, true, false, Option, none, some, List, [], ◌∷◌, ◌++◌, String, template, is_truthy, text_or,
  prefix,
}
use campus_compile.Engine.{Engine, Submission, fetch_prev_history, fetch_next_history}
use campus_compile.Paging.{arrow, back, forth, stay}
use campus_compile.Paging.Controls.{has_turns, turn_buttons}
use campus_compile.View.{View, label, button, shown_if}

-- A submission as its own request answers it.
pub record Full : Type 0 where
  pub submission_id : String
  pub status : String
  pub language : String
  pub source_code : String
  pub message : Option String

pub record SubmissionHistory : Type 0 where
  pub selected_submission : Option Full
  pub is_modal_open : Bool

abbrev pub initial : SubmissionHistory
initial = record { selected_submission = none; is_modal_open = false }

pub data Msg : Type 0 where
  view_submission : String → Msg
  close restore : Msg
  prev_page next_page : Msg

-- The answer to the request for a submission; a failure changes nothing.
unfoldable pub on_submission : Option Full → SubmissionHistory → SubmissionHistory
on_submission none h = h
on_submission (some full) h = record { selected_submission = some full; is_modal_open = true }

unfoldable pub close_modal : SubmissionHistory → SubmissionHistory
close_modal h = record h { is_modal_open = false }

-- "Restore to Editor": the code and the language that it writes.
unfoldable pub restored : SubmissionHistory → Option (String × String)
restored h = Option.map (λ full. (full.source_code, full.language)) h.selected_submission

-- The keyboard handler.
unfoldable pub handle_key_down : String → String → Engine → Engine
handle_key_down focused key e = elim (arrow focused key) [
  | back ↦ fetch_prev_history e
  | forth ↦ fetch_next_history e
  | stay ↦ e
]

unfoldable pub rows : List Submission → List (View Msg)
rows [] = []
rows (sub ∷ subs) =
    label sub.submitted_at
    ∷ label sub.status
    ∷ label sub.language
    ∷ button "View Code" false (view_submission sub.submission_id)
    ∷ rows subs

unfoldable pub modal : SubmissionHistory → List (View Msg)
modal h = elim h.selected_submission [
  | none ↦ []
  | some full ↦ shown_if h.is_modal_open (
      label "Submission Details"
        ∷ label full.status
        ∷ label (template ("ID: " ∷ full.submission_id ∷ []))
        ∷ label (template ("Language: " ∷ full.language ∷ []))
        ∷ button "" false close
        ∷ label full.source_code
        ∷ shown_if (is_truthy full.message)
            (label (template ("Logs: " ∷ prefix 70 (text_or full.message "") ∷ "..." ∷ [])) ∷ [])
      ++ button "Close" false close ∷ button "Restore to Editor" false restore ∷ [])
]

unfoldable pub view : Engine → SubmissionHistory → List (View Msg)
unfolding rows modal
view e h =
    label "Time" ∷ label "Verdict" ∷ label "Lang" ∷ label "Action" ∷ rows e.history.rows
    ++ shown_if (has_turns e.history) (turn_buttons prev_page next_page e.history)
    ++ modal h
