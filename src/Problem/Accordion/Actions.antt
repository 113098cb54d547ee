-- ===== src/Problem/Accordion/Actions.antt =====
-- The user's actions on the accordion, and the same on a plain list of panels.
use campus_compile.Base.{
  ℕ, ◌<◌, ◌≤◌, ◌≡◌, Bool, true, false, not, none, List, [], ◌∷◌, ◌++◌, map, length,
}
use campus_compile.Problem.{TestCase}
use campus_compile.Problem.Accordion.{
  lookup, Accordion, blank, toggle_test_case, handle_add_test_case, erase_idx,
  handle_remove_test_case, Field, write, update_test_case, append_parsed,
}
use campus_compile.Problem.Accordion.Panels.{modify, IsObject}

-- What the user does. An upload acts when its archive has been read, with the number of cases that
-- the page captured when the reading began.
pub data Action : Type 0 where
  toggle : ℕ → Action
  add : Action
  remove : ℕ → Action
  update : ℕ → Field → Action
  upload : ℕ → List TestCase → Action

unfoldable pub act : Accordion → Action → Accordion
act a (toggle i) = toggle_test_case i a
act a add = handle_add_test_case a
act a (remove i) = handle_remove_test_case i a
act a (update i f) = update_test_case i f a
act a (upload start parsed) = append_parsed start parsed a

unfoldable pub run : Accordion → List Action → Accordion
run a [] = a
run a (e ∷ es) = run (act a e) es

-- The same on panels: no index is ever remapped. An upload appends its cases closed, and opens the
-- panel at the captured index.
abbrev pub closed : List TestCase → List (TestCase × Bool)
closed cs = map (λ d. (d, false)) cs

abbrev pub act_panels : List (TestCase × Bool) → Action → List (TestCase × Bool)
act_panels ps (toggle i) = modify i (λ p. (p.0, not p.1)) ps
act_panels ps add = ps ++ (blank true, true) ∷ []
act_panels ps (remove i) = erase_idx i ps
act_panels ps (update i f) = modify i (λ p. (write f p.0, p.1)) ps
act_panels ps (upload start parsed) = modify start (λ p. (p.0, true)) (ps ++ closed parsed)

unfoldable pub run_panels : List (TestCase × Bool) → List Action → List (TestCase × Bool)
run_panels ps [] = ps
run_panels ps (e ∷ es) = run_panels (act_panels ps e) es

-- The keys are distinct, and each is a case's index; the key 0 may stand without a case.
pub record IsValid (a : Accordion) : Type 0 where
  pub object : IsObject a.expanded_cases
  pub bounded : (k : ℕ) → length a.test_cases ≤ k → 0 < k → lookup k a.expanded_cases ≡ none
