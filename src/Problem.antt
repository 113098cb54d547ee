-- ===== src/Problem.antt =====
-- The problem editor's data: the state variables that frontend/src/pages/AddProblem.jsx and
-- EditProblem.jsx share, and the objects that they send. A number field is `none` for NaN, which
-- `parseInt` gives for an empty input; the memory limit is kept in units of 1/1024 megabyte, so that
-- the division of a stored limit by 1024 is exact, as it is in the source's floats.
pub mod Accordion
pub mod Upload
pub mod Screen
use campus_compile.Base.{
  ℕ, ◌*◌, Bool, true, false, Option, some, List, [], ◌∷◌, String, str_eq, not, ◌||◌, any, trim,
  is_truthy,
}
use mathlib.Core.Option

pub record TestCase : Type 0 where
  pub input : String
  pub expected_output : String
  pub is_hidden : Bool

pub record ProblemData : Type 0 where
  pub title : String
  pub description : String
  pub difficulty : String
  pub time_limit : Option ℕ
  pub memory_limit : Option ℕ
  pub is_public : Bool

-- The status line's state.
pub record Status : Type 0 where
  pub type : String
  pub message : String

abbrev pub no_status : Status
no_status = record { type = ""; message = "" }

abbrev pub megabytes : ℕ → ℕ
megabytes m = m * 1024

-- The new problem form's initial state; the description's default text is given.
abbrev pub default_data : String → ProblemData
default_data description = record {
  title = "";
  description = description;
  difficulty = "Easy";
  time_limit = some 2000;
  memory_limit = some (megabytes 256);
  is_public = false;
}

-- The metadata that is sent: each limit under both of its keys, the memory limit in kilobytes.
pub record Metadata : Type 0 where
  pub title : String
  pub description : String
  pub difficulty : String
  pub time_limit : Option ℕ
  pub time_limit_ms : Option ℕ
  pub memory_limit : Option ℕ
  pub memory_limit_kb : Option ℕ
  pub is_public : Bool

unfoldable pub metadata : ProblemData → Metadata
metadata d = record {
  title = d.title;
  description = d.description;
  difficulty = d.difficulty;
  time_limit = d.time_limit;
  time_limit_ms = d.time_limit;
  memory_limit = d.memory_limit;
  memory_limit_kb = d.memory_limit;
  is_public = d.is_public;
}

-- Whether the publish button is disabled.
unfoldable pub is_blank_case : TestCase → Bool
is_blank_case tc =
    not (is_truthy (some (trim tc.input))) || not (is_truthy (some (trim tc.expected_output)))

unfoldable pub publish_disabled : Bool → List TestCase → Bool
publish_disabled is_submitting cases = is_submitting || any is_blank_case cases

-- Whether the button to the second step is disabled.
unfoldable pub next_disabled : ProblemData → Bool
next_disabled d = not (is_truthy (some d.title)) || not (is_truthy (some d.description))
