-- ===== src/Tests/Problems.antt =====
-- Concrete problems: the test-case accordion, publishing and saving.
use campus_compile.Base.{
  includes, length, All, to_lower, trim, trim_start, trim_end, is_white, decimal, ◌<◌, ◌≡◌, ◌⊎◌,
  inr, refl, true, false, none, some, List, [], ◌∷◌, arith,
}
use campus_compile.Problem.{megabytes, TestCase, ProblemData, metadata, no_status, default_data}
use campus_compile.ZipParser.{
  Entry, parse_zip_test_cases, collect, pair, keys, put, get, clean_name, base_name, is_skipped,
  index_of,
}
use campus_compile.ZipParser.Pairs.{parsed_cases, IsPaired}
use campus_compile.Problem.Accordion.{new_form, handle_add_test_case, toggle_test_case}
use campus_compile.Problem.Accordion.Actions.{
  Action, act, add, upload, toggle, remove, run, run_panels, IsValid,
}
use campus_compile.Problem.Accordion.Refinement.{panels-run, new_form-IsValid}
use campus_compile.Problem.Accordion.Panels.{panels}
use campus_compile.Problem.Upload.{build_form}
use campus_compile.AddProblem.{Page, Server, Reply, handle_publish, stored, absent, orphaned}
use campus_compile.AddProblem.Outcome.{publish_outcome}
use campus_compile.EditProblem
use campus_compile.EditProblem.{
  handle_save_changes, saved, drafted, not_drafted, draft, load_data, load_cases, Remote,
}
use campus_compile.EditProblem.Saving.{save_outcome}
use campus_compile.EditProblem.Loading.{load-save, serve, serve_cases}

abbrev cases : List TestCase
cases =
    record { input = "1 2"; expected_output = "3"; is_hidden = false }
    ∷ record { input = "2 2"; expected_output = "4"; is_hidden = true }
    ∷ []

-- A case is added while an archive is read.
abbrev clicks : List Action
clicks = add ∷ toggle 0 ∷ upload 1 cases ∷ remove 0 ∷ []

panels-run_example :
    (panels (run new_form clicks) ≡ run_panels (panels new_form) clicks)
    × IsValid (run new_form clicks)
unfolding act handle_add_test_case toggle_test_case
panels-run_example =
    panels-run new_form clicks new_form-IsValid
      (tt, (omega arith, ((omega arith, inr (omega arith)), (tt, tt))))

abbrev good : Reply
good = record { applied = true; answered = true }

abbrev lost : Reply
lost = record { applied = true; answered = false }

abbrev sum_problem : ProblemData
sum_problem = record (default_data "Add two numbers.") { title = "Sum" }

abbrev page : Page
page = record {
  step = 2;
  status = no_status;
  is_submitting = false;
  show_success_modal = false;
  published_url = "";
  problem_data = sum_problem;
  accordion = record { test_cases = cases; expanded_cases = [] };
}

abbrev server : Server
server = record {
  create = good;
  id = "42";
  reason = none;
  batch = lost;
  batch_reason = none;
  delete = good;
}

publish_outcome_example :
    let after = handle_publish server "https://x" page in
    (after.page.show_success_modal ≡ true
      → after.remote ≡ stored (metadata sum_problem) (build_form 0 cases))
    × (after.page.show_success_modal ≡ false
        → (after.remote ≡ absent) ⊎ ((after.page.status ≡ orphaned "42") ⊎ (true ≡ false)))
    × (after.page.is_submitting ≡ false)
publish_outcome_example =
    publish_outcome server "https://x" page (λ e. e) (λ e. refl) (λ e. e) refl refl

abbrev edit_server : EditProblem.Server
edit_server = record { update = good; wipe = good; batch = good; fallback = lost }

abbrev before : Remote
before = record { meta = metadata (default_data "old"); tests = [] }

save_outcome_example :
    let after = handle_save_changes edit_server sum_problem cases before in
    ((after.status ≡ saved)
      × (after.remote ≡ record { meta = metadata sum_problem; tests = build_form 0 cases }))
    ⊎ (((after.status ≡ drafted)
          × (after.remote.meta ≡ record (metadata sum_problem) { is_public = false }))
        ⊎ (after.status ≡ not_drafted))
save_outcome_example =
    save_outcome edit_server sum_problem cases before (λ e. e) (λ e. e) (λ e. e) (λ e. refl)

load-save_example :
    let after = handle_save_changes edit_server sum_problem cases before in
    (load_data (serve "u" after.remote.meta) ≡ sum_problem)
    × (load_cases (some (serve_cases after.remote.tests)) ≡ cases)
unfolding handle_save_changes
load-save_example =
    load-save edit_server sum_problem cases before "u" 2000 (megabytes 256) refl refl (λ e. e)
      (λ e. e) (λ e. e) (λ e. refl) refl

abbrev archive : List Entry
archive =
    record { path = "t/out2.txt"; is_dir = false; content = some "7\n" }
    ∷ record { path = "t/In2.txt"; is_dir = false; content = some " 3 4" }
    ∷ []

abbrev read_back : List TestCase
read_back = record { input = "3 4"; expected_output = "7"; is_hidden = true } ∷ []

abbrev IsFile : Entry → Type 0
IsFile e = e.is_dir ≡ false

parsed_cases_example : (0 < length read_back) × All (IsPaired IsFile) read_back
unfolding parse_zip_test_cases collect pair keys put get clean_name base_name includes is_skipped
    index_of to_lower trim trim_start trim_end is_white decimal
parsed_cases_example = parsed_cases IsFile archive read_back (refl, (refl, tt)) refl
