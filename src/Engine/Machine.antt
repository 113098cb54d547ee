-- ===== src/Engine/Machine.antt =====
-- The engine as a machine of events: the run and submit buttons are disabled while `isProcessing`,
-- and a stream that is closed delivers nothing.
pub mod Safety
use campus_compile.Base.{
  ℕ, zero, suc, ◌+◌, ◌<◌, ◌≡◌, refl, Bool, true, false, Option, none, some, List, [], ◌∷◌, String,
  str_eq, one_of, arith, length, get_elem?, if◌then◌else◌, Bool-cases, Option-cases, inl, inr,
}
use mathlib.Core.Bool.{cond}
use campus_compile.Engine.{
  Engine, Submission, Details, fetch_problem, on_problem, Kind, submission, run_code, Stream,
  Message, handle_submit, handle_run_code, open_stream, reject, on_message, on_stream_error,
  close_current, settle, fetch_prev_history, fetch_next_history, on_history, show_verdict,
  fetch_history, load_draft, save_draft,
}

-- What can happen: a click, the answer to a request under way, a stream's event, a write of the
-- editor or of the console, an answer of the history or of the problem, the effects that load and
-- save a draft.
pub data Event : Type 0 where
  submit run : Event
  accepted : Event
  rejected : Option String → Option ℕ → Event
  message : ℕ → Message → Event
  broken : ℕ → Event
  edit : String → String → Event
  console : Bool → String → String → Event
  prev_history next_history : Event
  history : ℕ → Option (List Submission) → Event
  mounted : Event
  problem : Details → Event
  load save : Event

-- The oldest answer under way is taken first.
unfoldable pub deliver : (Kind → Engine → Engine) → Engine → Engine
deliver f e = elim (e.pending) [ [] ↦ e | kind ∷ rest ↦ f kind (record e { pending = rest }) ]

-- An event of the stream at a position, if that stream is open.
unfoldable pub on_stream : (Kind → Engine → Engine) → ℕ → Engine → Engine
on_stream f i e = elim (get_elem? e.streams i) [ none ↦ e | some s ↦ cond s.is_open (f s.kind e) e ]

unfoldable pub step : Engine → Event → Engine
unfolding deliver on_stream
step e submit = cond e.is_processing e (handle_submit e)
step e run = cond e.is_processing e (handle_run_code e)
step e accepted = deliver open_stream e
step e (rejected reason status) = deliver (λ kind. reject kind reason status) e
step e (message i m) = on_stream (λ kind. on_message kind m) i e
step e (broken i) = on_stream on_stream_error i e
step e (edit code language) = record e { code = code; language = language }
step e (console is_open tab input) = record e {
  is_console_open = is_open;
  active_tab = tab;
  custom_input = input;
}
step e prev_history = fetch_prev_history e
step e next_history = fetch_next_history e
step e (history offset rows) = on_history offset rows e
step e mounted = fetch_problem e
step e (problem d) = on_problem d e
step e load = load_draft e
step e save = save_draft e

unfoldable pub run_events : Engine → List Event → Engine
run_events e [] = e
run_events e (ev ∷ evs) = run_events (step e ev) evs

abbrev pub opened : List Stream → ℕ
opened [] = 0
opened (s ∷ ss) = (if s.is_open then 1 else 0) + opened ss

-- Of the streams only the current one can be open.
abbrev pub TailClosed : List Stream → Type 0
TailClosed [] = Unit
TailClosed (s ∷ ss) = opened ss ≡ 0

-- One request or stream is under way while `isProcessing`, and none otherwise.
pub record IsSafe (e : Engine) : Type 0 where
  pub under_way : length e.pending + opened e.streams ≡ (if e.is_processing then 1 else 0)
  pub current : TailClosed e.streams
