-- ===== src/ContestForm.antt =====
-- The contest form that frontend/src/pages/AddContest.jsx and EditContest.jsx share: the selected
-- problems with their points, and the picker that pages through the available ones. A date is what
-- `new Date` reads of an input's text, in milliseconds, `none` for an Invalid Date.
pub mod Selection
pub mod Rules
pub mod Screens
use mathlib.Core.Option
use campus_compile.Base.{
  ℕ, Bool, true, false, not, ◌&&◌, Option, none, some, List, [], ◌∷◌, ◌++◌, map, String, str_eq,
  ◌==◌, if◌then◌else◌, is_some, or_default, keep_if, any, text_or, template,
}
use campus_compile.Base.Int.{ℤ, pos}
use campus_compile.ContestForm.Rules.{AccessRules}
use campus_compile.Paging.{
  Pager, fresh, receive, prev, next, rewind, Paged, back, forth, stay, arrow,
}
use campus_compile.Paging.View.{Query}

-- A row of the problem tables.
pub record Row : Type 0 where
  pub problem_id : String
  pub title : String
  pub difficulty : String

pub record Selected : Type 0 where
  pub problem_id : String
  pub points_value : ℤ

-- `formData`.
pub record Form : Type 0 where
  pub title : String
  pub host_organization : String
  pub start_time : Option ℕ
  pub end_time : Option ℕ
  pub is_public : Bool
  pub access_rules : AccessRules
  pub problems : List Selected

pub record Page : Type 0 where
  pub current_step : ℕ
  pub available_problems : Pager Row
  pub assigned_cache : List Row
  pub fetching_problems : Bool
  pub search_query : String
  pub form_data : Form

abbrev pub is_selected : String → List Selected → Bool
is_selected id problems = any (λ p. str_eq p.problem_id id) problems

abbrev pub is_cached : String → List Row → Bool
is_cached id rows = any (λ p. str_eq p.problem_id id) rows

-- The two updates of a click on a problem's box.
unfoldable pub toggle_problem : Row → Page → Page
toggle_problem prob s =
    let problems = s.form_data.problems in
    record s {
      form_data = record s.form_data {
        problems =
            if is_selected prob.problem_id problems
            then keep_if (λ p. not (str_eq p.problem_id prob.problem_id)) problems
            else problems ++ record { problem_id = prob.problem_id; points_value = pos 100 } ∷ [];
      };
      assigned_cache =
          if is_cached prob.problem_id s.assigned_cache
          then s.assigned_cache
          else s.assigned_cache ++ prob ∷ [];
    }

-- `points` is what parseInt reads, `none` for NaN.
unfoldable pub update_points : String → Option ℤ → Page → Page
update_points problem_id points s = record s {
  form_data = record s.form_data {
    problems =
        map
          (λ p.
            if str_eq p.problem_id problem_id
            then record p { points_value = or_default points (pos 0) }
            else p)
          s.form_data.problems;
  };
}

unfoldable pub on_problems_error : Page → Page
on_problems_error s = record s { fetching_problems = false }

-- The picker, with the page's own `limit`.
module _ (limit : ℕ) where
  unfoldable pub load_problems : ℕ → String → Page → Page × Query
  load_problems current_offset query s = (
    record s { fetching_problems = true },
    record {
      endpoint = "/faculty/problems";
      limit = limit;
      offset = current_offset;
      search = query;
      view_mode = none;
    },
  )

  unfoldable pub on_problems : ℕ → Option (List Row) → Page → Page
  on_problems current_offset rows s = record s {
    available_problems = receive limit current_offset rows s.available_problems;
    fetching_problems = false;
  }

  -- The timer of the effect on `step` and `searchQuery`, which runs on the third step.
  unfoldable pub on_debounce : Page → Page × Query
  unfolding load_problems
  on_debounce s =
      load_problems 0 s.search_query (record s { available_problems = rewind s.available_problems })

  unfoldable pub turn : Option ℕ → Page → Page × Option Query
  turn none s = (s, none)
  turn (some offset) s = let (s', q) = load_problems offset s.search_query s in (s', some q)

  unfoldable pub handle_prev_problems : Page → Page × Option Query
  unfolding turn load_problems
  handle_prev_problems s = turn (prev limit s.available_problems) s

  unfoldable pub handle_next_problems : Page → Page × Option Query
  unfolding turn load_problems
  handle_next_problems s = turn (next limit s.available_problems) s

  unfoldable pub handle_key_down : String → String → Page → Page × Option Query
  unfolding handle_prev_problems handle_next_problems
  handle_key_down focused key s =
      if s.current_step == 3
      then elim (arrow focused key) [
        | back ↦ handle_prev_problems s
        | forth ↦ handle_next_problems s
        | stay ↦ (s, none)
      ]
      else (s, none)

-- What a submission sends, or the error it ends with: `toISOString` throws for an Invalid Date.
pub data Submission : Type 0 where
  send : Form → Submission
  invalid_date : Submission

unfoldable pub submission : Form → Submission
submission f = if is_some f.start_time && is_some f.end_time then send f else invalid_date

-- The end of a submission: `none` when it succeeded, else the server's message, if it had one.
pub data Outcome : Type 0 where
  to_contests : Outcome
  alert : String → Outcome

unfoldable pub handle_submit : (Form → Option (Option String)) → Form → Outcome
unfolding submission
handle_submit server f = elim (submission f) [
  | invalid_date ↦ alert "Backend Error: Unknown Error. Check console."
  | send payload ↦ elim (server payload) [
    | none ↦ to_contests
    | some message ↦
        alert (template ("Backend Error: " ∷ text_or message "Unknown Error. Check console." ∷ []))
  ]
]
