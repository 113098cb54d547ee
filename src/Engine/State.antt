-- ===== src/Engine/State.antt =====
-- The state of the execution engine: the variables of frontend/src/hooks/useExecutionEngine.js with
-- what they hold.
use campus_compile.Base.{ℕ, Bool, Option, List, String}
use campus_compile.Paging.{Pager}

pub data Draft : Type 0 where
  draft : String → String → Draft
  garbled : Draft

-- What a stream's handlers were created with: a submission's draft key, or nothing.
pub data Kind : Type 0 where
  submission : Option String → Kind
  run_code : Kind

pub record Stream : Type 0 where
  pub kind : Kind
  pub is_open : Bool

-- A row of the submission history, with the time as the browser prints it.
pub record Submission : Type 0 where
  pub submission_id : String
  pub submitted_at : String
  pub status : String
  pub language : String

-- The problem that the server describes; a missing limit is `none`.
pub record Details : Type 0 where
  pub problem_id : String
  pub author_id : String
  pub title : String
  pub difficulty : String
  pub description : String
  pub time_limit_ms : Option ℕ
  pub memory_limit_kb : Option ℕ

pub data Request : Type 0 where
  get_problem : String → Request
  post_submit : String → Option String → String → String → Request
  post_run : String → String → String → Request
  get_history : ℕ → Request

pub record Engine : Type 0 where
  pub problem_id : String
  pub contest_id : Option String
  pub user_id : Option String
  pub problem : Option Details
  pub code : String
  pub language : String
  pub submit_status : String
  pub history : Pager Submission
  pub is_console_open : Bool
  pub active_tab : String
  pub custom_input : String
  pub console_output : String
  pub is_processing : Bool
  pub streams : List Stream
  pub pending : List Kind
  pub drafts : List (String × Draft)
  pub sent : List Request
