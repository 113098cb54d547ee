-- ===== src/EditContest.antt =====
-- The page of a contest that exists: frontend/src/pages/EditContest.jsx. An answer's field is
-- `none` when it is missing, a date also when it is invalid.
pub mod Loaded
pub mod Times
pub mod Layout
use mathlib.Core.Option
use campus_compile.Base.{
  ℕ, Bool, false, Option, none, some, List, [], ◌∷◌, ◌&&◌, not, String, str_eq, map, or_default,
  text_or, leb, ◌/◌, ◌*◌, ◌+◌, ◌-◌, if◌then◌else◌,
}
use campus_compile.Base.Int.{ℤ, pos}
use campus_compile.Paging.{Pager, fresh}
use campus_compile.Paging.View.{Query}
use campus_compile.ContestForm
use campus_compile.ContestForm.Rules.{AccessRules, default_access_rules}
use campus_compile.ContestForm.{Page, Form, Row, Selected, Outcome}

abbrev pub limit : ℕ
limit = 25

-- The answers to the two requests.
pub record Contest : Type 0 where
  pub title : Option String
  pub host_organization : Option String
  pub start_time : Option ℕ
  pub end_time : Option ℕ
  pub is_public : Bool
  pub access_rules : Option AccessRules

pub record Assigned : Type 0 where
  pub row : Row
  pub points_value : Option ℤ

-- `p.points_value || 100`.
unfoldable pub points_or : Option ℤ → ℤ
points_or none = pos 100
points_or (some (pos ℕ.zero)) = pos 100
points_or (some z) = z

-- The browser's time zone: how far its clock is ahead of UTC or behind it, in milliseconds.
pub record Zone : Type 0 where
  pub ahead : ℕ
  pub behind : ℕ

-- The input shows the minutes in UTC, `toISOString().slice(0, 16)`, and `new Date` reads them as
-- minutes of the browser's zone.
unfoldable pub format_for_input : Zone → Option ℕ → Option ℕ
format_for_input zone none = none
format_for_input zone (some t) = some (t / 60000 * 60000 + zone.behind - zone.ahead)

unfoldable pub load_contest : Zone → Contest → List Assigned → Page → Page
unfolding points_or format_for_input default_access_rules
load_contest zone contest assigned s =
    let rows = map (λ p. p.row) assigned in
    record s {
      form_data = record {
        title = text_or contest.title "";
        host_organization = text_or contest.host_organization "CampusCompile Official";
        start_time = format_for_input zone contest.start_time;
        end_time = format_for_input zone contest.end_time;
        is_public = contest.is_public;
        access_rules = or_default contest.access_rules default_access_rules;
        problems =
            map
              (λ p. record {
                problem_id = p.row.problem_id;
                points_value = points_or p.points_value;
              })
              assigned;
      };
      assigned_cache = rows;
      available_problems = record s.available_problems { rows = rows };
    }

-- The test that hides the buttons: the contest has started, and the user is no administrator.
unfoldable pub is_time_locked : ℕ → Option String → Form → Bool
is_time_locked now none f = elim f.start_time [ none ↦ false | some t ↦ leb t now ]
is_time_locked now (some role) f = elim f.start_time [
  | none ↦ false
  | some t ↦ leb t now && not (str_eq role "admin")
]

-- The picker's handlers and the submission, with this page's `limit`.
abbrev pub load_available : ℕ → String → Page → Page × Query
load_available = ContestForm.load_problems limit

abbrev pub on_search : Page → Page × Query
on_search = ContestForm.on_debounce limit

abbrev pub prev_available : Page → Page × Option Query
prev_available = ContestForm.handle_prev_problems limit

abbrev pub next_available : Page → Page × Option Query
next_available = ContestForm.handle_next_problems limit

abbrev pub on_key : String → String → Page → Page × Option Query
on_key = ContestForm.handle_key_down limit

abbrev pub save_contest : (Form → Option (Option String)) → Form → Outcome
save_contest = ContestForm.handle_submit

-- The deletion: `none` without confirmation, else whether the page goes to the contests.
unfoldable pub handle_delete : Bool → Bool → Option Outcome
handle_delete confirmed deleted =
    if confirmed
    then some (
        if deleted
        then ContestForm.to_contests
        else ContestForm.alert "Error deleting contest. Check console.")
    else none
