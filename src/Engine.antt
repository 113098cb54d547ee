-- ===== src/Engine.antt =====
-- The execution engine of both arenas: frontend/src/hooks/useExecutionEngine.js. The state is the
-- hook's state variables, the event streams that it has opened (the newest first: `sseRef.current`
-- is the first), the answers to `POST` requests still under way, the drafts in localStorage, and
-- the requests sent, last first. A handler is a function of the state. A draft is held as the
-- object that its JSON text stands for; an icon in a text leaves out its variation selector.
mod State
pub mod Machine
pub mod Drafts
pub mod Verdicts
pub use campus_compile.Engine.State.{
  Draft, draft, garbled, Kind, submission, run_code, Stream, Submission, Details, Request,
  get_problem, post_submit, post_run, get_history, Engine,
}
use mathlib.Core.Bool.{cond}
use campus_compile.Base.{
  ℕ, ◌+◌, Bool, true, false, not, ◌&&◌, Option, none, some, List, [], ◌∷◌, String, str_eq, template,
  one_of, text_or, is_truthy, if◌then◌else◌, ◌==◌, get_elem?,
}
use campus_compile.Paging.{Pager, fresh, receive, prev, next}

-- The template that a language starts from; `none` for a language that has none.
unfoldable pub boilerplates : String → Option String
boilerplates language =
    if str_eq language "cpp"
    then some
        "#include <bits/stdc++.h>\nusing namespace std;\n\nint main() {\n    // Write your C++ code here\n    return 0;\n}"
    else if str_eq language "python"
    then some "# Write your Python code here"
    else if str_eq language "java"
    then some
        "import java.util.*;\nimport java.io.*;\n\n public class Main {\n    public static void main(String[] args) {\n        // Write your Java code here\n    }\n}"
    else none

abbrev pub cpp_template : String
cpp_template = text_or (boilerplates "cpp") ""

abbrev pub history_limit : ℕ
history_limit = 10

unfoldable pub draft_key : Engine → Option String
draft_key e = elim (e.user_id) [
  | none ↦ none
  | some user ↦ some (elim (e.contest_id) [
    | some contest ↦ template ("draft_contest_" ∷ contest ∷ "_" ∷ user ∷ "_" ∷ e.problem_id ∷ [])
    | none ↦ template ("draft_" ∷ user ∷ "_" ∷ e.problem_id ∷ [])
  ])
]

-- `if (sseRef.current) sseRef.current.close()`.
unfoldable pub close_current : List Stream → List Stream
close_current [] = []
close_current (s ∷ ss) = record s { is_open = false } ∷ ss

unfoldable pub remove_draft : Option String → List (String × Draft) → List (String × Draft)
remove_draft none ds = ds
remove_draft (some key) [] = []
remove_draft (some key) ((k, d) ∷ ds) =
    if str_eq k key then remove_draft (some key) ds else (k, d) ∷ remove_draft (some key) ds

unfoldable pub fetch_history : ℕ → Engine → Engine
fetch_history offset e = record e { sent = get_history offset ∷ e.sent }

-- The effect that asks for the problem and its history, and the problem's answer.
unfoldable pub fetch_problem : Engine → Engine
unfolding fetch_history
fetch_problem e =
    if is_truthy (some e.problem_id)
    then fetch_history 0 (record e { sent = get_problem e.problem_id ∷ e.sent })
    else e

unfoldable pub on_problem : Details → Engine → Engine
on_problem d e = record e { problem = some d }

unfoldable pub on_history : ℕ → Option (List Submission) → Engine → Engine
on_history offset rows e = record e { history = receive history_limit offset rows e.history }

unfoldable pub fetch_prev_history : Engine → Engine
unfolding fetch_history
fetch_prev_history e = elim (prev history_limit e.history) [
  | none ↦ e
  | some offset ↦ fetch_history offset e
]

unfoldable pub fetch_next_history : Engine → Engine
unfolding fetch_history
fetch_next_history e = elim (next history_limit e.history) [
  | none ↦ e
  | some offset ↦ fetch_history offset e
]

-- The output tab with a text, and the console open.
abbrev shows : String → Engine → Engine
shows text e = record e { console_output = text; active_tab = "output"; is_console_open = true }

unfoldable pub handle_submit : Engine → Engine
unfolding close_current draft_key
handle_submit e = record e {
  is_processing = true;
  submit_status = "Pending... ⏳";
  is_console_open = false;
  streams = close_current e.streams;
  pending = submission (draft_key e) ∷ e.pending;
  sent = post_submit e.problem_id e.contest_id e.language e.code ∷ e.sent;
}

unfoldable pub handle_run_code : Engine → Engine
unfolding close_current
handle_run_code e =
    let e' = shows "Queuing... ⚙" e in
    record e' {
      is_processing = true;
      streams = close_current e.streams;
      pending = run_code ∷ e.pending;
      sent = post_run e.language e.code e.custom_input ∷ e.sent;
    }

-- The `POST` succeeded: a stream is opened, and becomes the current one.
unfoldable pub open_stream : Kind → Engine → Engine
open_stream kind e = record e { streams = record { kind = kind; is_open = true } ∷ e.streams }

-- The status of a failed submission's answer, if it has one.
unfoldable pub failure_status : Option ℕ → String
failure_status none = "Error ❌"
failure_status (some code) =
    if code == 429 then "Rate Limited 🛑" else if code == 503 then "Unavailable ⚠" else "Error ❌"

-- The `catch` blocks of the two handlers.
unfoldable pub reject : Kind → Option String → Option ℕ → Engine → Engine
unfolding failure_status
reject (submission key) custom_message status e =
    record (shows
      (template ("[SYSTEM REJECTED]\n" ∷ text_or custom_message "Error: Submission Failed" ∷ []))
      e) { submit_status = failure_status status; is_processing = false }
reject run_code custom_message status e =
    record (shows
      (template (
        "[SYSTEM REJECTED]\n"
        ∷ text_or custom_message "Error: Could not connect to execution engine."
        ∷ []))
      e) { is_processing = false }

-- A parsed message of a stream.
pub record Message : Type 0 where
  pub status : String
  pub message : Option String
  pub output : Option String

-- The end of a stream's work: `setIsProcessing(false); sseRef.current.close()`.
unfoldable pub settle : Engine → Engine
unfolding close_current
settle e = record e { is_processing = false; streams = close_current e.streams }

-- What a final verdict shows, and the draft that an accepted one removes.
unfoldable pub show_verdict : Option String → Message → Engine → Engine
show_verdict key m e =
    if one_of m.status ("CE" ∷ "RE" ∷ "WA" ∷ "TLE" ∷ "SE" ∷ [])
    then shows (text_or m.message (template ("Verdict: " ∷ m.status ∷ []))) e
    else if one_of m.status ("AC" ∷ "Accepted" ∷ [])
    then record (shows "Execution Successful! 🎉\nAll test cases passed." e) {
      drafts = remove_draft key e.drafts;
    }
    else e

unfoldable pub on_message : Kind → Message → Engine → Engine
unfolding settle show_verdict fetch_history
on_message (submission key) m e =
    if str_eq m.status "Running"
    then record e { submit_status = "Running... ⚙" }
    else settle (show_verdict key m (fetch_history 0 (record e { submit_status = m.status })))
on_message run_code m e =
    if str_eq m.status "Running"
    then record e { console_output = "Running... ⚙" }
    else if one_of m.status ("Completed" ∷ "CE" ∷ "RE" ∷ "TLE" ∷ "SE" ∷ [])
    then settle (record e {
      console_output = text_or m.output (text_or m.message "Program finished with no output.");
    })
    else e

unfoldable pub on_stream_error : Kind → Engine → Engine
unfolding settle
on_stream_error (submission key) e = settle e
on_stream_error run_code e =
    settle (record e { console_output = "Error streaming execution status." })

unfoldable pub lookup_draft : String → List (String × Draft) → Option Draft
lookup_draft key [] = none
lookup_draft key ((k, d) ∷ ds) = if str_eq k key then some d else lookup_draft key ds

unfoldable pub put_draft : String → Draft → List (String × Draft) → List (String × Draft)
put_draft key d [] = (key, d) ∷ []
put_draft key d ((k, c) ∷ ds) = if str_eq k key then (k, d) ∷ ds else (k, c) ∷ put_draft key d ds

abbrev pub stored_draft : Option String → List (String × Draft) → Option Draft
stored_draft none ds = none
stored_draft (some key) ds = lookup_draft key ds

-- The effect that loads a draft when the problem or the draft key changes.
unfoldable pub load_draft : Engine → Engine
load_draft e = elim (stored_draft (draft_key e) e.drafts) [
  | none ↦ record e { code = cpp_template }
  | some d ↦ elim d [
    | draft language code ↦ record e { language = language; code = code }
    | garbled ↦ record e { code = cpp_template }
  ]
]

-- `code !== boilerplates[language]`.
abbrev pub differs : Option String → String → Bool
differs none code = true
differs (some template_text) code = not (str_eq code template_text)

-- The timer of the effect that saves a draft.
unfoldable pub save_draft : Engine → Engine
save_draft e = elim (draft_key e) [
  | none ↦ e
  | some key ↦
      if is_truthy (some e.code) && differs (boilerplates e.language) e.code
      then record e { drafts = put_draft key (draft e.language e.code) e.drafts }
      else e
]

-- The cleanup on unmount.
unfoldable pub unmount : Engine → Engine
unfolding close_current
unmount e = record e { streams = close_current e.streams }
