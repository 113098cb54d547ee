-- ===== src/Leaderboard.antt =====
-- The live leaderboard: frontend/src/pages/Leaderboard.jsx. Rows are of any type. The state has the
-- page's variables, its event source, and whether the first request is still to be answered.
pub mod Stream
pub mod Board
use mathlib.Core.Option
use campus_compile.Base.{
  ℕ, Bool, true, false, not, Option, none, some, List, [], ◌∷◌, ◌&&◌, ◌||◌, String, str_eq,
  or_default, if◌then◌else◌, one_of, is_truthy, text_or,
}

pub data Source : Type 0 where
  absent streaming closed : Source

-- The fields of an answer or of a message, each of which may be missing.
pub record Standing (A : Type 0) : Type 0 where
  pub leaderboard : Option (List A)
  pub audit_status : Option String

pub record Leaderboard (A : Type 0) : Type 0 where
  pub rows : List A
  pub audit : String
  pub loading : Bool
  pub connection_error : Bool
  pub source : Source
  pub is_mounted : Bool
  pub is_waiting : Bool

-- `audit_status || 'pending'`.
unfoldable pub status_of : Option String → String
status_of status = text_or status "pending"

abbrev pub is_final : String → Bool
is_final s = str_eq s "completed" || str_eq s "failed"

-- What reaches the page: the answer to its request (`none` when it fails), a message of the event
-- source (`none` when it cannot be parsed), the source's other two callbacks, and the unmount.
pub data Event (A : Type 0) : Type 0 where
  answer : Option (Standing A) → Event A
  message : Option (Standing A) → Event A
  open_event : Event A
  error_event : Event A
  leave : Event A

module _ {A : Type 0} where
  -- The mount, with the stored token: without one there is no request.
  unfoldable pub mount : Option String → Leaderboard A
  mount token = record {
    rows = [];
    audit = "pending";
    loading = is_truthy token;
    connection_error = not (is_truthy token);
    source = absent;
    is_mounted = true;
    is_waiting = is_truthy token;
  }

  show : Standing A → Leaderboard A → Leaderboard A
  show standing s = record s {
    rows = or_default standing.leaderboard [];
    audit = status_of standing.audit_status;
    connection_error = false;
  }

  unfoldable pub on_answer : Option (Standing A) → Leaderboard A → Leaderboard A
  unfolding show
  on_answer none s =
      if s.is_mounted
      then record s { connection_error = true; loading = false; is_waiting = false }
      else record s { is_waiting = false }
  on_answer (some standing) s =
      if s.is_mounted
      then record (show standing s) {
        loading = false;
        is_waiting = false;
        source = if is_final (status_of standing.audit_status) then s.source else streaming;
      }
      else record s { is_waiting = false }

  unfoldable pub on_message : Option (Standing A) → Leaderboard A → Leaderboard A
  unfolding show
  on_message none s = s
  on_message (some standing) s = record (show standing s) {
    source = if is_final (or_default standing.audit_status "") then closed else s.source;
  }

  -- The cleanup of the effect.
  unfoldable pub cleanup : Leaderboard A → Leaderboard A
  cleanup s = record s {
    is_mounted = false;
    source = elim s.source [ absent ↦ absent | streaming ↦ closed | closed ↦ closed ];
  }

  -- Only an open source has callbacks, and the request is answered once.
  unfoldable pub step : Leaderboard A → Event A → Leaderboard A
  unfolding on_answer on_message cleanup
  step s (answer a) = if s.is_waiting then on_answer a s else s
  step s (message m) = elim s.source [ streaming ↦ on_message m s | absent ↦ s | closed ↦ s ]
  step s open_event = elim s.source [
    | streaming ↦ record s { connection_error = false }
    | absent ↦ s
    | closed ↦ s
  ]
  step s error_event = elim s.source [
    | streaming ↦ record s { connection_error = true }
    | absent ↦ s
    | closed ↦ s
  ]
  step s leave = cleanup s

  unfoldable pub run : Leaderboard A → List (Event A) → Leaderboard A
  run s [] = s
  run s (e ∷ events) = run (step s e) events
