-- ===== src/Tests/Arenas.antt =====
-- Concrete arenas: the code editor, the practice page and the contest's page.
use campus_compile.Base.{
  ◌+◌, ◌≡◌, refl, inl, inr, true, false, none, some, Bool, List, [], ◌∷◌, if◌then◌else◌, one_of,
}
use campus_compile.Paging.{fresh}
use campus_compile.Engine.{Engine, Details, post_submit, post_run, on_problem}
use campus_compile.Engine.Machine
use campus_compile.View.{wrap}
use campus_compile.View.Offers.{Offers}
use campus_compile.ProblemDescription
use campus_compile.Engine.Machine.{Event, run_events}
use campus_compile.CodeEditor
use campus_compile.CodeEditor.{
  CodeEditor, textarea, on_dom_event, handle_editor_mount, cleanup, blocked, passed, submit,
  sync_effect,
}
use campus_compile.CodeEditor.Clipboard.{clipboard_blocked}
use campus_compile.CodeEditor.Sync.{Desk, typed, external, change, unchanged_hides_next, render}
use campus_compile.SubmissionHistory
use campus_compile.Workbench.{
  Page, Act, click, event, in_editor, problem, mount, act, rerender, receive, on_engine,
  engine_event, set_desk, body, desk,
}
use campus_compile.Workbench.Acts.{run, run-run_events, AllOffered}
use campus_compile.Workbench.Sent.{submit_sends_shown}
use campus_compile.AntiCheat.{Hook}
use campus_compile.ContestArena.{Room, handle_visibility_change}
use campus_compile.ContestArena.Watch.{held, switch_reports}

clipboard_blocked_example :
    let mounted = λ (is_contest : Bool).
      handle_editor_mount is_contest true true "x" (CodeEditor.initial "x" "python") in
    (on_dom_event textarea "paste" (mounted true) ≡ (
      if one_of "paste" ("paste" ∷ "drop" ∷ [])
      then blocked true
      else if one_of "paste" ("copy" ∷ "cut" ∷ [])
      then blocked false
      else passed))
    × (on_dom_event textarea "paste" (mounted false) ≡ passed)
    × (on_dom_event textarea "paste" (cleanup (mounted true)) ≡ passed)
clipboard_blocked_example = clipboard_blocked "x" "python" "x" "paste" textarea true

abbrev settled_editor : CodeEditor
settled_editor = record (CodeEditor.initial "x" "python") { shown = some "x" }

abbrev python_desk : Desk
python_desk = record { code = "x"; language = "python"; editor = settled_editor }

unchanged_hides_next_example :
    let d' = change (change python_desk (typed "x")) (external "" "python") in
    (d'.editor.shown ≡ some "x") × (d'.code ≡ "")
unfolding CodeEditor.initial
unchanged_hides_next_example =
    unchanged_hides_next python_desk "" "python"
      (record { shown = refl; flag = refl; code = refl; language = refl }) (λ e. cc)

abbrev sum_details : Details
sum_details = record {
  problem_id = "7";
  author_id = "p";
  title = "Sum";
  difficulty = "Easy";
  description = "Add two numbers.";
  time_limit_ms = none;
  memory_limit_kb = none;
}

abbrev waiting_engine : Engine
waiting_engine = record {
  problem_id = "7";
  contest_id = none;
  user_id = some "u";
  problem = none;
  code = "x";
  language = "python";
  submit_status = "";
  history = fresh;
  is_console_open = false;
  active_tab = "input";
  custom_input = "";
  console_output = "";
  is_processing = false;
  streams = [];
  pending = [];
  drafts = [];
  sent = [];
}

abbrev waiting : Page
waiting = record {
  engine = waiting_engine;
  editor = CodeEditor.initial "" "cpp";
  submissions = SubmissionHistory.initial;
  left_tab = "description";
  location = none;
  requested = [];
}

abbrev arrival : List Act
arrival = event (problem sum_details) ∷ event (mount true true "x") ∷ []

abbrev submission : List Act
submission =
    event (problem sum_details) ∷ event (mount true true "x") ∷ click (in_editor submit) ∷ []

submission_offered : AllOffered false false waiting submission
unfolding act rerender receive on_engine Machine.step on_problem engine_event desk set_desk render
    sync_effect CodeEditor.initial handle_editor_mount body wrap Offers ProblemDescription.view
    CodeEditor.view CodeEditor.controls
submission_offered =
    (tt, (tt, ((sum_details, refl, inr (inr (inr (inr (inr (inl (refl, refl))))))), tt)))

run-run_events_example :
    (evs : List Event) × ((run false waiting submission).engine ≡ run_events waiting_engine evs)
run-run_events_example = run-run_events false false waiting submission submission_offered

submit_sends_shown_example :
    let p = run false waiting arrival in
    let after = λ (m : CodeEditor.Msg). (act false (click (in_editor m)) p).engine.sent in
    (after submit ≡ post_submit "7" none "python" "x" ∷ [])
    × (after CodeEditor.run ≡ post_run "python" "x" "" ∷ [])
unfolding act rerender receive on_engine Machine.step on_problem engine_event desk set_desk render
    sync_effect CodeEditor.initial handle_editor_mount run
submit_sends_shown_example =
    submit_sends_shown false waiting arrival "x" refl (tt, (refl, tt)) refl refl

abbrev student_hook : Hook
student_hook = record {
  contest_id = some "c";
  is_contest = true;
  key_buffer = [];
  mouse_leave_timer = none;
  timers = [];
  event_buffer = [];
  posted = [];
}

abbrev room : Room
room = record {
  contest_id = "c";
  arena = record {
    is_elevated = false;
    has_entered = true;
    is_fullscreen = true;
    document_fullscreen = true;
    tab_violations = 0;
    leave_time = 0;
    time_away = 0;
    telemetry = student_hook;
  };
  page = record waiting { engine = record waiting_engine { problem = some sum_details } };
  editor_hook = student_hook;
  location = none;
}

switch_reports_example :
    let r' = handle_visibility_change true 5 room in
    (held "blur" r'.arena.telemetry ≡ held "blur" room.arena.telemetry + 1)
    × (held "blur" r'.editor_hook ≡ held "blur" room.editor_hook + 1)
    × (held "visibility_spoof_suspected" r'.arena.telemetry
        ≡ held "visibility_spoof_suspected" room.arena.telemetry + 1)
switch_reports_example = switch_reports 5 room refl refl refl refl refl
