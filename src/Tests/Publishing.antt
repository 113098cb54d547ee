-- ===== src/Tests/Publishing.antt =====
-- A concrete visit to the form of a new problem.
use campus_compile.Base.{
  ℕ, ◌≡◌, ◌≤◌, refl, inl, inr, true, false, Option, none, some, [], ◌∷◌, String, decimal, length,
  any, trim,
}
use campus_compile.View.Offers.{Offers}
use campus_compile.Problem.{
  is_blank_case, next_disabled, publish_disabled, metadata, default_data, no_status,
}
use campus_compile.Problem.Upload.{build_form}
use campus_compile.Problem.Accordion
use campus_compile.Problem.Accordion.{update_test_case, write, new_form, lookup}
use campus_compile.Problem.Screen
use campus_compile.Problem.Screen.{
  Msg, change, on_cases, on_data, details, preview, arsenal, case_rows, submit_button,
}
use campus_compile.AddProblem.{
  Page, Server, reset_form, handle_publish, upload_batch, create_problem,
}
use campus_compile.AddProblem.Screen.{update, view, success_modal}
use campus_compile.AddProblem.Screen.Reached.{Reached, reset, clicked, shown, offered-uploads}

abbrev show_number : Option ℕ → String
show_number none = ""
show_number (some n) = decimal n

abbrev read_number : String → Option ℕ
read_number s = none

abbrev anything : Page
anything = record {
  step = 1;
  status = no_status;
  is_submitting = false;
  show_success_modal = false;
  published_url = "";
  problem_data = default_data "";
  accordion = new_form;
}

abbrev opened : Page
opened = reset_form "Add two numbers." anything

abbrev titled : Page
titled = update (Screen.write_data (Screen.title "Sum")) opened

abbrev second : Page
second = update (Screen.to_step 2) titled

abbrev given : Page
given = update (Screen.write_case 0 (Accordion.input "1 2")) second

abbrev filled : Page
filled = update (Screen.write_case 0 (Accordion.expected_output "3")) given

abbrev server : Server
server = record {
  create = record { applied = true; answered = true };
  id = "42";
  reason = none;
  batch = record { applied = true; answered = true };
  batch_reason = none;
  delete = record { applied = true; answered = true };
}

abbrev OnPage : Page → Type 0
OnPage = Reached show_number show_number read_number read_number

second-OnPage : OnPage second
unfolding Offers view details preview success_modal reset_form update on_cases on_data change
    next_disabled
second-OnPage =
    clicked titled (Screen.to_step 2)
      (clicked opened (Screen.write_data (Screen.title "Sum")) (reset "Add two numbers." anything)
        (inl (refl, ("Sum", refl))))
      (inr (inr (inr (inr (inr (inr (inr (inl (refl, refl)))))))))

filled-OnPage : OnPage filled
unfolding Offers view details arsenal case_rows submit_button success_modal reset_form update
    on_cases on_data change update_test_case write lookup
filled-OnPage =
    clicked given (Screen.write_case 0 (Accordion.expected_output "3"))
      (clicked second (Screen.write_case 0 (Accordion.input "1 2")) second-OnPage
        (inr (inr (inr (inl (refl, ("1 2", refl)))))))
      (inr (inr (inr (inr (inl (refl, ("3", refl)))))))

filled-Offers : Offers (shown show_number show_number read_number read_number filled) Screen.submit
unfolding Offers view details arsenal case_rows submit_button success_modal reset_form update
    on_cases on_data change update_test_case write publish_disabled is_blank_case lookup trim
filled-Offers = inr (inr (inr (inr (inr (inr (inr (inl (refl, refl))))))))

offered-uploads_example :
    (1 ≤ length filled.accordion.test_cases)
    × (any is_blank_case filled.accordion.test_cases ≡ false)
    × ((handle_publish server "https://x" filled).sent
        ≡ upload_batch "42" (build_form 0 filled.accordion.test_cases)
          ∷ create_problem (metadata filled.problem_data)
          ∷ [])
    × ((handle_publish server "https://x" filled).page.show_success_modal ≡ true)
offered-uploads_example =
    offered-uploads show_number show_number read_number read_number server "https://x" filled-OnPage
      filled-Offers refl refl
