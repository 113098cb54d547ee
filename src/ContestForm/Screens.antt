-- ===== src/ContestForm/Screens.antt =====
-- The three steps of the contest form as frontend/src/pages/AddContest.jsx and EditContest.jsx show
-- them, and the updates of their controls. How the browser writes and reads a date is a parameter,
-- and so is the text in a rule's input.
pub mod Steps
use mathlib.Core.Option
use campus_compile.Base.{
  ℕ, ◌+◌, ◌-◌, Bool, true, false, not, ◌&&◌, ◌||◌, Option, none, some, List, [], ◌∷◌, ◌++◌, map,
  String, str_eq, template, decimal, ◌==◌, ltb, if◌then◌else◌, keep_if, find, any, trim, or_default,
}
use campus_compile.Base.Int.{ℤ, pos}
use campus_compile.Paging.{display_start, display_end}
use campus_compile.Paging.Controls.{has_turns, turn_buttons}
use campus_compile.View.{View, label, button, checkbox, input, shown_if}
use campus_compile.ContestForm.{
  Page, Form, Row, Selected, is_selected, toggle_problem, update_points,
}
use campus_compile.ContestForm.Rules.{
  Field, allowed_courses, allowed_departments, allowed_batches, allowed_sections,
  allowed_student_groups, allowed_graduation_years, handle_array_change, parse_int, print_int,
}

-- `handleChange`, by the name of its input.
pub data Change : Type 0 where
  title : String → Change
  host_organization : String → Change
  start_time : Option ℕ → Change
  end_time : Option ℕ → Change
  is_public : Bool → Change

unfoldable pub handle_change : Change → Form → Form
handle_change (title value) f = record f { title = value }
handle_change (host_organization value) f = record f { host_organization = value }
handle_change (start_time value) f = record f { start_time = value }
handle_change (end_time value) f = record f { end_time = value }
handle_change (is_public checked) f = record f { is_public = checked }

pub data Msg : Type 0 where
  change : Change → Msg
  rule : Field → String → Msg
  toggle : Row → Msg
  points : String → String → Msg
  search : String → Msg
  prev_problems next_problems : Msg
  back next : Msg

-- The controls that write the page; the two paging buttons send requests and write nothing here.
unfoldable pub update : Msg → Page → Page
unfolding handle_change handle_array_change toggle_problem update_points
update (change c) s = record s { form_data = handle_change c s.form_data }
update (rule field value) s = record s {
  form_data = record s.form_data {
    access_rules = handle_array_change field value s.form_data.access_rules;
  };
}
update (toggle prob) s = toggle_problem prob s
update (points problem_id value) s = update_points problem_id (parse_int (trim value)) s
update (search value) s = record s { search_query = value }
update prev_problems s = s
update next_problems s = s
update back s = record s { current_step = s.current_step - 1 }
update next s = record s { current_step = s.current_step + 1 }

-- Step 1.
module _ (show_date : Option ℕ → String) (read_date : String → Option ℕ) where
  unfoldable pub details : Form → List (View Msg)
  details f =
      label "Step 1: Details & Timing"
      ∷ label "Contest Title"
      ∷ input f.title false (λ v. change (title v))
      ∷ label "Host Organization"
      ∷ input f.host_organization false (λ v. change (host_organization v))
      ∷ label "Start Time"
      ∷ input (show_date f.start_time) false (λ v. change (start_time (read_date v)))
      ∷ label "End Time"
      ∷ input (show_date f.end_time) false (λ v. change (end_time (read_date v)))
      ∷ checkbox f.is_public (change (is_public (not f.is_public)))
      ∷ label "Publish to Live Arena"
      ∷ []

-- Step 2, with the text that each input shows.
unfoldable pub access_control : (Field → String) → List (View Msg)
access_control shown =
    label "Step 2: Demographic Clearance"
    ∷ label "Leave a field blank to allow everyone. Separate multiple entries with commas."
    ∷ label "Allowed Courses"
    ∷ input (shown allowed_courses) false (rule allowed_courses)
    ∷ label "Allowed Departments"
    ∷ input (shown allowed_departments) false (rule allowed_departments)
    ∷ label "Allowed Batches"
    ∷ input (shown allowed_batches) false (rule allowed_batches)
    ∷ label "Allowed Sections"
    ∷ input (shown allowed_sections) false (rule allowed_sections)
    ∷ label "Allowed Student Groups"
    ∷ input (shown allowed_student_groups) false (rule allowed_student_groups)
    ∷ label "Allowed Graduation Years"
    ∷ input (shown allowed_graduation_years) false (rule allowed_graduation_years)
    ∷ []

-- `points_value || 100`.
abbrev points_shown : ℤ → ℤ
points_shown (pos ℕ.zero) = pos 100
points_shown z = z

-- The row of a selected problem: from the cache, from the picker, or a placeholder.
unfoldable pub row_of : String → Page → Row
row_of id s =
    let by_id = λ (p : Row). str_eq p.problem_id id in
    or_default (find by_id s.assigned_cache) (
      or_default (find by_id s.available_problems.rows)
        (record { problem_id = id; title = "Pinned Problem"; difficulty = "Unknown" }))

unfoldable pub selected_rows : List Selected → Page → List (View Msg)
unfolding row_of print_int
selected_rows [] s = []
selected_rows (p ∷ ps) s =
    let prob = row_of p.problem_id s in
    checkbox true (toggle prob)
    ∷ label prob.title
    ∷ label prob.difficulty
    ∷ label "Points:"
    ∷ input (print_int (points_shown p.points_value)) false (points prob.problem_id)
    ∷ selected_rows ps s

unfoldable pub available_rows : List Row → List (View Msg)
available_rows [] = []
available_rows (prob ∷ probs) =
    checkbox false (toggle prob) ∷ label prob.title ∷ label prob.difficulty ∷ available_rows probs

unfoldable pub paging : Page → List (View Msg)
paging s =
    let p = s.available_problems in
    shown_if (not s.fetching_problems && has_turns p) (turn_buttons prev_problems next_problems p)

unfoldable pub pinned : List Selected → Page → List (View Msg)
unfolding selected_rows
pinned [] s = []
pinned (p ∷ ps) s = label "Selected Problems" ∷ selected_rows (p ∷ ps) s

-- The picker, with the text of an empty workspace; a selected problem is left out.
unfoldable pub picker : String → List Row → Page → List (View Msg)
unfolding available_rows paging
picker empty [] s = label empty ∷ []
picker empty (prob ∷ probs) s =
    available_rows
      (keep_if (λ p. not (is_selected p.problem_id s.form_data.problems)) (prob ∷ probs))
    ++ paging s

-- Step 3.
unfoldable pub arena_setup : String → Page → List (View Msg)
unfolding pinned picker
arena_setup empty s =
    label "Step 3: Arena Setup"
      ∷ label "Select the problems you want to feature in this contest and assign point values."
      ∷ pinned s.form_data.problems s
    ++ input s.search_query false search
      ∷ (if s.fetching_problems && s.available_problems.offset == 0
          then label "Loading workspace..." ∷ []
          else picker empty s.available_problems.rows s)

-- The shown step.
unfoldable pub screen :
    (Option ℕ → String) → (String → Option ℕ) → (Field → String) → String → Page → List (View Msg)
unfolding details access_control arena_setup
screen show_date read_date shown empty s =
    shown_if (s.current_step == 1) (details show_date read_date s.form_data)
    ++ shown_if (s.current_step == 2) (access_control shown)
    ++ shown_if (s.current_step == 3) (arena_setup empty s)

-- The two navigation buttons.
abbrev pub back_button : Page → List (View Msg)
back_button s = shown_if (ltb 1 s.current_step) (button "Back" false back ∷ [])

abbrev pub next_button : Page → List (View Msg)
next_button s = shown_if (ltb s.current_step 3) (button "Next Step" false next ∷ [])
