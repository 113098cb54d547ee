-- ===== src/EditProblem/Cases.antt =====
-- The accordion handlers of frontend/src/pages/EditProblem.jsx, which are those of AddProblem.jsx on
-- this page's own state.
use campus_compile.Base.{ℕ, true, List, [], ◌∷◌, template, decimal, length}
use campus_compile.Problem.{TestCase, Status, no_status}
use campus_compile.Problem.Accordion.{
  Accordion, Field, toggle_test_case, handle_add_test_case, handle_remove_test_case,
  update_test_case, append_parsed,
}
use campus_compile.AddProblem.{Parsed, failed, cases}

-- The state that the handlers read and write.
pub record Cases : Type 0 where
  pub status : Status
  pub accordion : Accordion

-- The page before its data has come.
abbrev pub initial : Cases
initial = record {
  status = no_status;
  accordion = record { test_cases = []; expanded_cases = (0, true) ∷ [] };
}

abbrev pub toggle_case : ℕ → Cases → Cases
toggle_case i s = record s { accordion = toggle_test_case i s.accordion }

abbrev pub add_case : Cases → Cases
add_case s = record s { accordion = handle_add_test_case s.accordion }

abbrev pub remove_case : ℕ → Cases → Cases
remove_case i s = record s { accordion = handle_remove_test_case i s.accordion }

abbrev pub update_case : ℕ → Field → Cases → Cases
update_case i f s = record s { accordion = update_test_case i f s.accordion }

-- The loaded cases replace the array and leave the object.
abbrev pub set_cases : List TestCase → Cases → Cases
set_cases loaded s = record s { accordion = record s.accordion { test_cases = loaded } }

abbrev pub upload_cases : ℕ → Parsed → Cases → Cases
upload_cases starting_index (failed error) s = record s {
  status = record { type = "error"; message = error };
}
upload_cases starting_index (cases parsed) s = record s {
  accordion = append_parsed starting_index parsed s.accordion;
  status = record {
    type = "success";
    message = template ("Successfully appended " ∷ decimal (length parsed) ∷ " test cases!" ∷ []);
  };
}
