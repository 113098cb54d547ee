-- ===== src/ContestProblems.antt =====
-- The problems of a contest: frontend/src/pages/Contest/ContestProblems.jsx. An end time is `none`
-- when no answer has set it, or when it is an Invalid Date, which nothing is later than.
pub mod Targets
use mathlib.Core.Option
use campus_compile.Base.{
  ℕ, zero, suc, ◌+◌, Bool, true, false, Option, none, some, List, [], ◌∷◌, ◌++◌, String, str_eq,
  template, decimal, ltb, text_or, if◌then◌else◌, or_default, get_elem?,
}
use campus_compile.View.{View, label, link, shown_if}
use campus_compile.ProblemDescription.{number_or}

pub record Problem : Type 0 where
  pub problem_id : String
  pub title : String
  pub user_status : Option String
  pub points_value : Option ℕ

pub record ContestProblems : Type 0 where
  pub problems : List Problem
  pub contest_end_time : Option ℕ
  pub loading : Bool

abbrev pub initial : ContestProblems
initial = record { problems = []; contest_end_time = none; loading = true }

-- The two answers together; a failure of either is `none`. The problems may be missing.
unfoldable pub on_answers :
    Option (Option (List Problem) × Option ℕ) → ContestProblems → ContestProblems
on_answers none s = record s { loading = false }
on_answers (some (problems, end_time)) s = record s {
  problems = or_default problems [];
  contest_end_time = end_time;
  loading = false;
}

unfoldable pub is_contest_over : ℕ → ContestProblems → Bool
is_contest_over now s = elim s.contest_end_time [ none ↦ false | some t ↦ ltb t now ]

unfoldable pub target_url : Bool → String → Problem → String
target_url over id prob =
    if over
    then template ("/arena/" ∷ prob.problem_id ∷ [])
    else template ("/contests/" ∷ id ∷ "/problem/" ∷ prob.problem_id ∷ [])

-- `String.fromCharCode(65 + index)`, for the 26 capital letters.
abbrev letters : List String
letters =
    "A" ∷ "B" ∷ "C" ∷ "D" ∷ "E" ∷ "F" ∷ "G" ∷ "H" ∷ "I" ∷ "J" ∷ "K" ∷ "L" ∷ "M" ∷ "N" ∷ "O" ∷ "P"
    ∷ "Q" ∷ "R" ∷ "S" ∷ "T" ∷ "U" ∷ "V" ∷ "W" ∷ "X" ∷ "Y" ∷ "Z" ∷ []

abbrev pub letter : ℕ → String
letter i = or_default (get_elem? letters i) ""

-- The icon of a status, by its colour and shape.
unfoldable pub status_icon : Option String → String
status_icon user_status =
    let status = text_or user_status "unsolved" in
    if str_eq status "AC" then "CheckCircle" else if str_eq status "WA" then "XCircle" else "Circle"

-- The rows from an index on; each is one link.
unfoldable pub rows : Bool → String → ℕ → List Problem → List (View ⊥)
unfolding target_url status_icon
rows over id index [] = []
rows over id index (prob ∷ probs) =
    label (status_icon prob.user_status)
    ∷ label (letter index)
    ∷ link (target_url over id prob) prob.title
    ∷ label (decimal (number_or prob.points_value 100))
    ∷ rows over id (index + 1) probs

unfoldable pub table : Bool → String → List Problem → List (View ⊥)
unfolding rows
table over id [] = label "The problem set has not been revealed yet." ∷ []
table over id (prob ∷ probs) = rows over id 0 (prob ∷ probs)

unfoldable pub view : ℕ → String → ContestProblems → List (View ⊥)
unfolding is_contest_over table
view now id s =
    if s.loading
    then label "Loading problem set..." ∷ []
    else shown_if (is_contest_over now s) (
        label
          "ℹ This contest has ended. Problems are now available for standard practice (upsolving)."
        ∷ [])
      ++ label "Status"
        ∷ label "#"
        ∷ label "Problem Name"
        ∷ label "Points"
        ∷ table (is_contest_over now s) id s.problems
