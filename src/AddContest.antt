-- ===== src/AddContest.antt =====
-- The page of a new contest: frontend/src/pages/AddContest.jsx.
pub mod AsView
pub mod Layout
use campus_compile.Base.{ℕ, Bool, false, Option, none, List, []}
use campus_compile.Paging.{fresh}
use campus_compile.ContestForm
use campus_compile.ContestForm.Rules.{default_access_rules}
use campus_compile.ContestForm.{Page, Form, Row, Outcome}
use campus_compile.Base.{String}
use campus_compile.Base.Int.{ℤ}

abbrev pub limit : ℕ
limit = 15

abbrev pub initial : Page
initial = record {
  current_step = 1;
  available_problems = fresh;
  assigned_cache = [];
  fetching_problems = false;
  search_query = "";
  form_data = record {
    title = "";
    host_organization = "CampusCompile Official";
    start_time = none;
    end_time = none;
    is_public = false;
    access_rules = default_access_rules;
    problems = [];
  };
}

-- The form's updates, as this page makes them.
abbrev pub click_problem : Row → Page → Page
click_problem = ContestForm.toggle_problem

abbrev pub set_points : String → Option ℤ → Page → Page
set_points = ContestForm.update_points
