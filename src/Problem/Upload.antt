-- ===== src/Problem/Upload.antt =====
-- The multipart form that carries the test cases, built alike in frontend/src/pages/AddProblem.jsx
-- and EditProblem.jsx. (`inputBlob` and `expectedBlob` are never set, so each blob is the text.)
use campus_compile.Base.{
  ℕ, ◌+◌, ◌≡◌, refl, Bool, true, false, Option, none, some, List, [], ◌∷◌, String, template,
  decimal, str_eq, if◌then◌else◌,
}
use campus_compile.Problem.{TestCase}

pub record Entry : Type 0 where
  pub field : String
  pub content : String
  pub filename : Option String

abbrev flag : Bool → String
flag true = "true"
flag false = "false"

unfoldable pub build_form : ℕ → List TestCase → List Entry
build_form i [] = []
build_form i (tc ∷ tcs) =
    record {
      field = "input_files";
      content = tc.input;
      filename = some (template ("in_" ∷ decimal i ∷ ".txt" ∷ []));
    }
    ∷ record {
      field = "expected_files";
      content = tc.expected_output;
      filename = some (template ("out_" ∷ decimal i ∷ ".txt" ∷ []));
    }
    ∷ record { field = "is_hidden"; content = flag tc.is_hidden; filename = none }
    ∷ build_form (i + 1) tcs

-- The values of a field, in the order of the form.
pub get_all : String → List Entry → List String
get_all field [] = []
get_all field (e ∷ es) =
    if str_eq e.field field then e.content ∷ get_all field es else get_all field es

-- Three parallel arrays read as test cases; a shorter array ends the reading.
pub read_cases : List String → List String → List String → List TestCase
read_cases (i ∷ is) (o ∷ os) (h ∷ hs) =
    record { input = i; expected_output = o; is_hidden = str_eq h "true" } ∷ read_cases is os hs
read_cases _ _ _ = []

flag_lem : (b : Bool) → str_eq (flag b) "true" ≡ b
flag_lem true = refl
flag_lem false = refl

-- The form's three arrays give the test cases back, in their order.
pub read_cases-build_form :
    (i : ℕ) (tcs : List TestCase)
    → let form = build_form i tcs in
      read_cases
        (get_all "input_files" form)
        (get_all "expected_files" form)
        (get_all "is_hidden" form)
      ≡ tcs
unfolding build_form get_all read_cases
read_cases-build_form i [] = refl
read_cases-build_form i (tc ∷ tcs) = cc (flag_lem tc.is_hidden, read_cases-build_form (i + 1) tcs)
