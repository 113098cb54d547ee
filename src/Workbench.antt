-- ===== src/Workbench.antt =====
-- The body that both arenas share, frontend/src/pages/Arena/PracticeArena.jsx and ContestArena.jsx:
-- the engine's hook with the description or the history on one side, and the code editor with the
-- console on the other. Who may edit the problem and whether it is a contest are parameters. The
-- editor is there as soon as the problem is, and shows a text once Monaco has mounted.
pub mod Offered
pub mod Acts
pub mod Settled
pub mod Synced
pub mod Sent
use mathlib.Core.Option
use campus_compile.Base.{
  ℕ, Bool, true, false, not, ◌||◌, ◌&&◌, Option, none, some, List, [], ◌∷◌, ◌++◌, String, str_eq,
  if◌then◌else◌, is_some, or_default, template,
}
use campus_compile.Engine.{
  Engine, Submission, Details, Message, handle_submit, handle_run_code, fetch_prev_history,
  fetch_next_history,
}
use campus_compile.Engine.Machine
use campus_compile.CodeEditor
use campus_compile.CodeEditor.{CodeEditor}
use campus_compile.CodeEditor.Sync.{Desk, render}
use campus_compile.Console
use campus_compile.SubmissionHistory
use campus_compile.SubmissionHistory.{SubmissionHistory, Full}
use campus_compile.ProblemDescription
use campus_compile.View.{View, label, button, wrap}
use campus_compile.View.Offers.{Offers}

pub record Page : Type 0 where
  pub engine : Engine
  pub editor : CodeEditor
  pub submissions : SubmissionHistory
  pub left_tab : String
  pub location : Option String
  pub requested : List String

pub data Msg : Type 0 where
  open_tab : String → Msg
  in_description : ProblemDescription.Msg → Msg
  in_history : SubmissionHistory.Msg → Msg
  in_console : Console.Msg → Msg
  in_editor : CodeEditor.Msg → Msg

unfoldable pub desk : Page → Desk
desk p = record { code = p.engine.code; language = p.engine.language; editor = p.editor }

unfoldable pub set_desk : Desk → Page → Page
set_desk d p = record p {
  engine = record p.engine { code = d.code; language = d.language };
  editor = d.editor;
}

-- A new code and language.
abbrev set_code : String → String → Page → Page
set_code code language p = record p {
  engine = record p.engine { code = code; language = language };
}

-- The renders after a change: the editor's effect writes the code at most once.
unfoldable pub rerender : Page → Page
unfolding desk set_desk render
rerender p = if is_some p.engine.problem then set_desk (render (render (desk p))) p else p

unfoldable pub on_code : CodeEditor.Msg → Page → Page
unfolding CodeEditor.handle_editor_change CodeEditor.handle_reset CodeEditor.cancel_reset
    CodeEditor.select_language CodeEditor.confirm_reset handle_run_code handle_submit
on_code (CodeEditor.typed value) p =
    set_code value p.engine.language
      (record p { editor = CodeEditor.handle_editor_change value p.editor })
on_code (CodeEditor.choose_language value) p =
    let (language, template_text) = CodeEditor.select_language value in
    set_code template_text language p
on_code CodeEditor.reset p = record p { editor = CodeEditor.handle_reset p.editor }
on_code CodeEditor.cancel p = record p { editor = CodeEditor.cancel_reset p.editor }
on_code CodeEditor.confirm p =
    let (editor, template_text) = CodeEditor.confirm_reset p.engine.language p.editor in
    set_code template_text p.engine.language (record p { editor = editor })
on_code CodeEditor.run p = record p { engine = handle_run_code p.engine }
on_code CodeEditor.submit p = record p { engine = handle_submit p.engine }

unfoldable pub on_history : SubmissionHistory.Msg → Page → Page
unfolding SubmissionHistory.close_modal SubmissionHistory.restored fetch_prev_history
    fetch_next_history
on_history (SubmissionHistory.view_submission id) p = record p { requested = id ∷ p.requested }
on_history SubmissionHistory.close p = record p {
  submissions = SubmissionHistory.close_modal p.submissions;
}
on_history SubmissionHistory.restore p = elim (SubmissionHistory.restored p.submissions) [
  | none ↦ p
  | some (code, language) ↦
      set_code code language
        (record p { submissions = SubmissionHistory.close_modal p.submissions })
]
on_history SubmissionHistory.prev_page p = record p { engine = fetch_prev_history p.engine }
on_history SubmissionHistory.next_page p = record p { engine = fetch_next_history p.engine }

-- Another tab takes the history and its modal off the page.
unfoldable pub set_left_tab : String → Page → Page
set_left_tab tab p = record p {
  left_tab = tab;
  submissions = if str_eq tab "history" then p.submissions else SubmissionHistory.initial;
}

unfoldable pub update : Msg → Page → Page
unfolding on_code on_history set_left_tab Console.update
update (open_tab tab) p = set_left_tab tab p
update (in_description (ProblemDescription.edit_problem id)) p = record p {
  location = some (template ("/edit-problem/" ∷ id ∷ []));
}
update (in_history m) p = on_history m p
update (in_console m) p = record p { engine = Console.update m p.engine }
update (in_editor m) p = on_code m p

-- What reaches the page that is not a click: the answers and events of the engine's requests, its
-- effects, and Monaco's mount with its text, a submission's answer, a key on the page.
pub data Outside : Type 0 where
  accepted : Outside
  rejected : Option String → Option ℕ → Outside
  message : ℕ → Message → Outside
  broken : ℕ → Outside
  rows : ℕ → Option (List Submission) → Outside
  problem : Details → Outside
  entered : Outside
  load_draft save_draft : Outside
  mount : Bool → Bool → String → Outside
  submission : Option Full → Outside
  key : String → String → Outside

-- The engine's part of it.
unfoldable pub engine_event : Outside → Option Machine.Event
engine_event accepted = some Machine.accepted
engine_event (rejected reason status) = some (Machine.rejected reason status)
engine_event (message i m) = some (Machine.message i m)
engine_event (broken i) = some (Machine.broken i)
engine_event (rows offset subs) = some (Machine.history offset subs)
engine_event (problem d) = some (Machine.problem d)
engine_event entered = some Machine.mounted
engine_event load_draft = some Machine.load
engine_event save_draft = some Machine.save
engine_event _ = none

-- With the first problem the editor comes onto the page.
unfoldable pub on_engine : Engine → Page → Page
on_engine e p = record p {
  engine = e;
  editor =
      if not (is_some p.engine.problem) && is_some e.problem
      then CodeEditor.initial e.code e.language
      else p.editor;
}

-- The history's keyboard handler and its answers are there while its tab is shown.
unfoldable pub is_history_shown : Page → Bool
is_history_shown p = is_some p.engine.problem && str_eq p.left_tab "history"

unfoldable pub receive : Bool → Outside → Page → Page
unfolding on_engine Machine.step engine_event is_history_shown SubmissionHistory.on_submission
    SubmissionHistory.handle_key_down CodeEditor.handle_editor_mount
receive is_contest (mount has_node has_textarea text) p = record p {
  editor = CodeEditor.handle_editor_mount is_contest has_node has_textarea text p.editor;
}
receive is_contest (submission full) p =
    if is_history_shown p
    then record p { submissions = SubmissionHistory.on_submission full p.submissions }
    else p
receive is_contest (key focused pressed) p =
    if is_history_shown p
    then record p { engine = SubmissionHistory.handle_key_down focused pressed p.engine }
    else p
receive is_contest o p = elim (engine_event o) [
  | none ↦ p
  | some ev ↦ on_engine (Machine.step p.engine ev) p
]

-- The body for a problem.
unfoldable pub body : Bool → Bool → Details → Page → List (View Msg)
unfolding SubmissionHistory.view ProblemDescription.view CodeEditor.view Console.view wrap
body can_edit is_contest d p =
    button "Description" false (open_tab "description")
      ∷ button "Submissions" false (open_tab "history")
      ∷ (if str_eq p.left_tab "history"
          then wrap in_history (SubmissionHistory.view p.engine p.submissions)
          else wrap in_description
              (ProblemDescription.view d can_edit p.engine.submit_status p.engine.language))
    ++ wrap in_editor (CodeEditor.view p.engine.language is_contest p.engine.is_processing p.editor)
    ++ wrap in_console (Console.view p.engine)

-- What the user or the outside does, each with the renders that follow.
pub data Act : Type 0 where
  click : Msg → Act
  event : Outside → Act

unfoldable pub act : Bool → Act → Page → Page
unfolding rerender update receive
act is_contest (click m) p = rerender (update m p)
act is_contest (event o) p = rerender (receive is_contest o p)
