-- ===== src/Problem/Screen.antt =====
-- The two steps that frontend/src/pages/AddProblem.jsx and EditProblem.jsx show, and what their
-- controls write. How a number field is printed and read is a parameter.
use campus_compile.Base.{
  ℕ, ◌+◌, Bool, true, false, not, Option, some, List, [], ◌∷◌, ◌++◌, String, template, decimal,
  text_or, if◌then◌else◌,
}
use campus_compile.View.{View, label, button, checkbox, input, select, shown_if}
use campus_compile.ProblemDescription.{number_or, print_thousandths}
use campus_compile.Problem.{
  TestCase, ProblemData, Status, next_disabled, publish_disabled, megabytes,
}
use campus_compile.Problem.Accordion
use campus_compile.Problem.Accordion.{
  Accordion, Expanded, Field, is_open, toggle_test_case, handle_add_test_case,
  handle_remove_test_case, update_test_case,
}

-- The inputs of the first step.
pub data Change : Type 0 where
  title difficulty description : String → Change
  time_limit memory_limit : Option ℕ → Change
  is_public : Bool → Change

unfoldable pub change : Change → ProblemData → ProblemData
change (title s) d = record d { title = s }
change (difficulty s) d = record d { difficulty = s }
change (description s) d = record d { description = s }
change (time_limit n) d = record d { time_limit = n }
change (memory_limit n) d = record d { memory_limit = n }
change (is_public b) d = record d { is_public = b }

pub data Msg : Type 0 where
  write_data : Change → Msg
  to_step : ℕ → Msg
  toggle remove : ℕ → Msg
  write_case : ℕ → Field → Msg
  add choose_zip submit delete : Msg
  copy reset go : Msg

-- What a message does to the test cases.
unfoldable pub on_cases : Msg → Accordion → Accordion
unfolding toggle_test_case handle_add_test_case handle_remove_test_case update_test_case
on_cases (toggle i) a = toggle_test_case i a
on_cases (remove i) a = handle_remove_test_case i a
on_cases (write_case i f) a = update_test_case i f a
on_cases add a = handle_add_test_case a
on_cases _ a = a

unfoldable pub on_data : Msg → ProblemData → ProblemData
unfolding change
on_data (write_data c) d = change c d
on_data _ d = d

abbrev pub status_line : Status → List (View Msg)
status_line s = label s.message ∷ []

-- The live preview.
unfoldable pub preview : (Option ℕ → String) → ProblemData → List (View Msg)
unfolding print_thousandths
preview show_memory d =
    label "Arena Live Preview"
    ∷ label (text_or (some d.title) "Untitled Problem")
    ∷ label (template ("⏱ " ∷ print_thousandths (number_or d.time_limit 2000) ∷ "s" ∷ []))
    ∷ label (
        template ("💾 " ∷ show_memory (some (number_or d.memory_limit (megabytes 256))) ∷ "MB" ∷ []))
    ∷ label d.difficulty
    ∷ label d.description
    ∷ []

-- The first step, with its heading, what stands beside the name of the description, what
-- stands to the left of its button and the name of the button.
module _ (show_time show_memory : Option ℕ → String)
    (read_time read_memory : String → Option ℕ) where
  unfoldable pub details :
      String → List (View Msg) → List (View Msg) → String → ProblemData → List (View Msg)
  unfolding preview next_disabled
  details heading guide left name d =
      label heading
        ∷ label "Problem Name"
        ∷ input d.title false (λ v. write_data (title v))
        ∷ label "Difficulty"
        ∷ select d.difficulty ("Easy" ∷ "Medium" ∷ "Hard" ∷ []) false
            (λ v. write_data (difficulty v))
        ∷ label "Time Limit (ms)"
        ∷ input (show_time d.time_limit) false (λ v. write_data (time_limit (read_time v)))
        ∷ label "Memory (MB)"
        ∷ input (show_memory d.memory_limit) false (λ v. write_data (memory_limit (read_memory v)))
        ∷ label "Description (Markdown + LaTeX)"
        ∷ guide
      ++ input d.description false (λ v. write_data (description v))
        ∷ label "Visibility Status"
        ∷ button "DRAFT (Hidden)" false (write_data (is_public false))
        ∷ button "PUBLIC (Live)" false (write_data (is_public true))
        ∷ left
      ++ button name (next_disabled d) (to_step 2) ∷ preview show_memory d

-- The panels from an index on; `removable` says whether they have a "Delete" button.
unfoldable pub case_rows : Bool → Expanded → ℕ → List TestCase → List (View Msg)
case_rows removable m i [] = []
case_rows removable m i (tc ∷ tcs) =
    button (if is_open i m then "▼" else "▶") false (toggle i)
      ∷ label (template ("Test Case " ∷ decimal (i + 1) ∷ []))
      ∷ checkbox tc.is_hidden (write_case i (Accordion.is_hidden (not tc.is_hidden)))
      ∷ label "Hidden"
      ∷ shown_if removable (button "Delete" false (remove i) ∷ [])
    ++ shown_if (is_open i m) (
        label "Input Data (stdin)"
        ∷ input tc.input false (λ v. write_case i (Accordion.input v))
        ∷ label "Expected Output (stdout)"
        ∷ input tc.expected_output false (λ v. write_case i (Accordion.expected_output v))
        ∷ [])
    ++ case_rows removable m (i + 1) tcs

-- The last button, with its name.
unfoldable pub submit_button : String → Bool → List TestCase → List (View Msg)
unfolding publish_disabled
submit_button name is_submitting cases =
    button (if is_submitting then "Streaming to S3..." else name)
      (publish_disabled is_submitting cases) submit
    ∷ []

-- The second step.
unfoldable pub arsenal : Bool → String → Bool → Accordion → List (View Msg)
unfolding case_rows submit_button
arsenal removable name is_submitting a =
    (label "Test Case Arsenal"
        ∷ label
            "Configure pure-text I/O pairs. These are sent directly to the Execution Engine memory."
        ∷ button "← Edit Problem Details" false (to_step 1)
        ∷ case_rows removable a.expanded_cases 0 a.test_cases
      ++ button "+ Add Manually" false add ∷ button "Drop .zip or Click" false choose_zip ∷ [])
    ++ submit_button name is_submitting a.test_cases
