-- ===== src/Problem/Accordion.antt =====
-- The test case list with its accordion, which AddProblem.jsx and EditProblem.jsx share: the cases
-- are an array, and the open panels an object from indices to Booleans. The object is a list of its
-- keys with their values; `undefined` reads as closed.
pub mod Panels
pub mod Actions
pub mod Refinement
use campus_compile.Base.{
  ℕ, zero, suc, ◌+◌, ◌-◌, Bool, true, false, not, Option, none, some, List, [], ◌∷◌, ◌++◌, ltb,
  ◌==◌, length, get_elem?, set, if◌then◌else◌, String, or_default,
}
use campus_compile.Problem.{TestCase}

abbrev pub Expanded : Type 0
Expanded = List (ℕ × Bool)

unfoldable pub lookup : ℕ → Expanded → Option Bool
lookup i [] = none
lookup i ((k, v) ∷ rest) = if k == i then some v else lookup i rest

-- `{ ...prev, [i]: v }`.
unfoldable pub put : ℕ → Bool → Expanded → Expanded
put i v [] = (i, v) ∷ []
put i v ((k, w) ∷ rest) = if k == i then (k, v) ∷ rest else (k, w) ∷ put i v rest

abbrev pub is_open : ℕ → Expanded → Bool
is_open i m = or_default (lookup i m) false

pub record Accordion : Type 0 where
  pub test_cases : List TestCase
  pub expanded_cases : Expanded

abbrev pub blank : Bool → TestCase
blank hidden = record { input = ""; expected_output = ""; is_hidden = hidden }

-- A new problem's form.
abbrev pub new_form : Accordion
new_form = record { test_cases = blank false ∷ []; expanded_cases = (0, true) ∷ [] }

unfoldable pub toggle_test_case : ℕ → Accordion → Accordion
toggle_test_case i a = record a {
  expanded_cases = put i (not (is_open i a.expanded_cases)) a.expanded_cases;
}

unfoldable pub handle_add_test_case : Accordion → Accordion
handle_add_test_case a = record {
  test_cases = a.test_cases ++ blank true ∷ [];
  expanded_cases = put (length a.test_cases) true a.expanded_cases;
}

-- `filter((_, i) => i !== index)`.
unfoldable pub erase_idx {ℓ} : {A : Type ℓ} → ℕ → List A → List A
erase_idx i [] = []
erase_idx zero (x ∷ xs) = xs
erase_idx (suc i) (x ∷ xs) = x ∷ erase_idx i xs

-- One round of the loop over the keys, and the loop.
unfoldable pub remap_key : ℕ → ℕ → Bool → Expanded → Expanded
remap_key removed k v fresh =
    if ltb k removed then put k v fresh else if ltb removed k then put (k - 1) v fresh else fresh

unfoldable pub remap : ℕ → Expanded → Expanded → Expanded
unfolding remap_key
remap removed fresh [] = fresh
remap removed fresh ((k, v) ∷ rest) = remap removed (remap_key removed k v fresh) rest

unfoldable pub handle_remove_test_case : ℕ → Accordion → Accordion
handle_remove_test_case i a = record {
  test_cases = erase_idx i a.test_cases;
  expanded_cases = remap i [] a.expanded_cases;
}

-- The fields that an input of a panel writes.
pub data Field : Type 0 where
  input expected_output : String → Field
  is_hidden : Bool → Field

unfoldable pub write : Field → TestCase → TestCase
write (input s) tc = record tc { input = s }
write (expected_output s) tc = record tc { expected_output = s }
write (is_hidden b) tc = record tc { is_hidden = b }

-- Panels exist for indices in range only.
unfoldable pub update_test_case : ℕ → Field → Accordion → Accordion
unfolding write
update_test_case i f a = elim (get_elem? a.test_cases i) [
  | none ↦ a
  | some tc ↦ record a { test_cases = set a.test_cases i (write f tc) }
]

-- The part of the ZIP upload that follows the extraction; `starting_index` is the number of cases
-- when the upload began.
unfoldable pub append_parsed : ℕ → List TestCase → Accordion → Accordion
append_parsed starting_index parsed a = record {
  test_cases = a.test_cases ++ parsed;
  expanded_cases = put starting_index true a.expanded_cases;
}
