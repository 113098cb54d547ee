-- ===== src/ProblemDescription.antt =====
-- The problem's description: frontend/src/pages/Arena/ProblemDescription.jsx. The time multipliers are
-- whole, and the memory multipliers are counted in halves; a printed float is an exact decimal. The
-- description is given to a Markdown component as it is.
pub mod Limits
use campus_compile.Base.{
  ◌≡◌, refl, ℕ, zero, suc, ◌+◌, ◌*◌, ◌/◌, ◌%◌, Bool, true, false, ◌||◌, Option, none, some, List,
  [], ◌∷◌, ◌++◌, String, str_eq, template, decimal, one_of, includes, text_or, if◌then◌else◌, ◌==◌,
}
use campus_compile.Engine.{Details}
use campus_compile.View.{View, label, button, shown_if}

pub data Color : Type 0 where
  green red yellow gray : Color

unfoldable pub get_status_color : String → Color
get_status_color status =
    if one_of status ("Accepted" ∷ "AC" ∷ [])
    then green
    else if one_of status ("WA" ∷ "CE" ∷ "RE" ∷ "TLE" ∷ "SE" ∷ []) || includes status "Error"
    then red
    else if one_of status ("Pending" ∷ "Running" ∷ []) || includes status "⏳"
    then yellow
    else gray

-- The time multiplier of a language, and twice its memory multiplier.
unfoldable pub multipliers : String → ℕ × ℕ
multipliers language =
    if str_eq language "python" then (2, 3) else if str_eq language "java" then (2, 4) else (1, 2)

-- `value || fallback`.
abbrev pub number_or : Option ℕ → ℕ → ℕ
number_or none d = d
number_or (some zero) d = d
number_or (some (suc n)) d = suc n

-- The time in thousandths of a second.
unfoldable pub display_time : Option ℕ → String → ℕ
unfolding multipliers
display_time time_limit_ms language = number_or time_limit_ms 2000 * (multipliers language).0

-- The memory in megabytes, rounded half up.
unfoldable pub display_mem : Option ℕ → String → ℕ
unfolding multipliers
display_mem memory_limit_kb language =
    (number_or memory_limit_kb (256 * 1024) * (multipliers language).1 + 1024) / 2048

-- Thousandths as a float prints: no zeros at the end.
unfoldable pub print_thousandths : ℕ → String
unfolding decimal
print_thousandths n =
    let whole = decimal (n / 1000) in
    let d1 = n / 100 % 10 in
    let d2 = n / 10 % 10 in
    let d3 = n % 10 in
    if n % 1000 == 0
    then whole
    else if n % 100 == 0
    then template (whole ∷ "." ∷ decimal d1 ∷ [])
    else if n % 10 == 0
    then template (whole ∷ "." ∷ decimal d1 ∷ decimal d2 ∷ [])
    else template (whole ∷ "." ∷ decimal d1 ∷ decimal d2 ∷ decimal d3 ∷ [])

-- The only control opens the editor of the problem.
pub data Msg : Type 0 where
  edit_problem : String → Msg

unfoldable pub view : Details → Bool → String → String → List (View Msg)
view problem can_edit status language =
    label problem.title
      ∷ shown_if can_edit (button "⚙ Edit Problem" false (edit_problem problem.problem_id) ∷ [])
    ++ label (
        template
          ("⏱ " ∷ print_thousandths (display_time problem.time_limit_ms language) ∷ "s" ∷ []))
      ∷ label (template ("💾 " ∷ decimal (display_mem problem.memory_limit_kb language) ∷ "MB" ∷ []))
      ∷ label problem.difficulty
      ∷ label problem.description
      ∷ label "Verdict"
      ∷ label (text_or (some status) "Ready")
      ∷ []

thousandths_runs :
    (print_thousandths 2000 ≡ "2")
    × (print_thousandths 1500 ≡ "1.5")
    × (print_thousandths 1050 ≡ "1.05")
    × (print_thousandths 1 ≡ "0.001")
unfolding print_thousandths decimal
thousandths_runs = (refl, refl, refl, refl)
