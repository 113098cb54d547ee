-- ===== src/Onboarding/Screen.antt =====
-- What frontend/src/pages/Onboarding.jsx shows. How a year is printed and read is a parameter.
use campus_compile.Base.{
  ℕ, false, Option, some, List, [], ◌∷◌, ◌++◌, String, is_truthy, map, if◌then◌else◌,
}
use campus_compile.View.{View, label, button, input, select, shown_if}
use campus_compile.Onboarding
use campus_compile.Onboarding.{Onboarding, Field, handle_change, grad_year_options}

pub data Msg : Type 0 where
  write : Field → Msg
  submit : Msg

-- The writes of the controls; `submit` calls the handler.
unfoldable pub update : Msg → Onboarding → Onboarding
unfolding handle_change
update (write f) o = handle_change f o
update submit o = o

unfoldable pub batch_options : List String
batch_options = "1" ∷ "2" ∷ "3" ∷ "4" ∷ "27" ∷ []

unfoldable pub section_options : List String
section_options = "1" ∷ "2" ∷ "14" ∷ []

unfoldable pub group_options : List String
group_options = "1" ∷ "7" ∷ []

-- A choice field, with its label above it.
unfoldable pub choice : String → String → List String → (String → Field) → List (View Msg)
choice name value options f = label name ∷ select value options false (λ v. write (f v)) ∷ []

module _ (show_year : Option ℕ → String) (read_year : String → Option ℕ) where
  -- The options are offered by their values.
  unfoldable pub view : ℕ → Onboarding → List (View Msg)
  unfolding choice batch_options section_options group_options grad_year_options
  view year o =
      let d = o.form_data in
      label "Complete Your Profile"
        ∷ label
            "Forge your identity. This data determines your contest eligibility and leaderboard groups."
        ∷ shown_if (is_truthy (some o.error)) (label o.error ∷ [])
      ++ label "Arena Username"
        ∷ input d.username false (λ v. write (Onboarding.username v))
        ∷ label "This will be your public handle on the leaderboards."
        ∷ choice "Course" d.course ("B.Tech" ∷ "M.Tech" ∷ "BCA" ∷ "MCA" ∷ "Ph.D" ∷ [])
            (λ v. Onboarding.course v)
      ++ choice "Department" d.department ("CSE" ∷ "ECE" ∷ "MECH" ∷ "BIOTECH" ∷ "OTHER" ∷ [])
          (λ v. Onboarding.department v)
      ++ choice "Graduation Year" (show_year d.graduation_year)
          (map (λ option. show_year (some option.0)) (grad_year_options year))
          (λ v. Onboarding.graduation_year (read_year v))
      ++ choice "Batch" d.batch batch_options (λ v. Onboarding.batch v)
      ++ choice "Section" d.section section_options (λ v. Onboarding.section v)
      ++ choice "Student Group" d.student_group group_options (λ v. Onboarding.student_group v)
      ++ button (if o.is_loading then "Saving Profile..." else "Enter the Arena") o.is_loading
          submit
        ∷ []
