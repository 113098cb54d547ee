-- ===== src/AddProblem/Screen/Ready.antt =====
-- The publish button of frontend/src/pages/AddProblem.jsx.
use campus_compile.Base.{
  ℕ, ◌+◌, ◌⊎◌, ◌≡◌, refl, inl, inr, Bool, true, false, Option, List, [], ◌∷◌, ◌++◌, String, ◌==◌,
  ◌&&◌, not, is_truthy, some,
}
use campus_compile.View.{View, label, link, button, input, shown_if}
use campus_compile.View.Offers.{
  Offers, AllSent, AllSent-append, AllSent-shown_if, Offers-append, Offers-shown_if, Offers-AllSent,
}
use campus_compile.Problem.{TestCase, ProblemData}
use campus_compile.Problem.Accordion
use campus_compile.Problem.Accordion.{Accordion, Expanded, is_open}
use campus_compile.Problem.Screen
use campus_compile.Problem.Screen.{
  Msg, details, preview, case_rows, arsenal, submit_button, status_line,
}
use campus_compile.AddProblem.{Page}
use campus_compile.AddProblem.Screen.{view, can_remove, success_modal}

-- The messages of the other controls; `remove` under a condition.
abbrev pub IsOther : Bool → Msg → Type 0
IsOther removable (Screen.remove i) = removable ≡ true
IsOther removable Screen.submit = ⊥
IsOther removable _ = Unit

abbrev delete : ℕ → List (View Msg)
delete i = button "Delete" false (Screen.remove i) ∷ []

abbrev panel : ℕ → TestCase → List (View Msg)
panel i tc =
    label "Input Data (stdin)"
    ∷ input tc.input false (λ v. Screen.write_case i (Accordion.input v))
    ∷ label "Expected Output (stdout)"
    ∷ input tc.expected_output false (λ v. Screen.write_case i (Accordion.expected_output v))
    ∷ []

row-AllSent :
    (r b : Bool) (i : ℕ) (tc : TestCase) (vs : List (View Msg))
    → AllSent (IsOther r) vs
    → AllSent (IsOther r) (shown_if r (delete i) ++ shown_if b (panel i tc) ++ vs)
row-AllSent true true i tc vs a = (refl, ((λ s. tt), ((λ s. tt), a)))
row-AllSent true false i tc vs a = (refl, a)
row-AllSent false true i tc vs a = ((λ s. tt), ((λ s. tt), a))
row-AllSent false false i tc vs a = a

pub case_rows-AllSent :
    (r : Bool) (m : Expanded) (i : ℕ) (tcs : List TestCase)
    → AllSent (IsOther r) (case_rows r m i tcs)
unfolding case_rows
case_rows-AllSent r m i [] = tt
case_rows-AllSent r m i (tc ∷ tcs) =
    let rest = case_rows-AllSent r m (i + 1) tcs in
    (tt, (tt, row-AllSent r (is_open i m) i tc (case_rows r m (i + 1) tcs) rest))

-- What a shown second step offers is another control's message, or its last button's.
arsenal-cases :
    (r : Bool) (name : String) (busy : Bool) (a : Accordion) (m : Msg)
    → Offers (arsenal r name busy a) m
    → IsOther r m ⊎ Offers (submit_button name busy a.test_cases) m
unfolding arsenal Offers
arsenal-cases r name busy a m (inl (_, e)) = inl (rw⁻¹ e tt)
arsenal-cases r name busy a m (inr o) =
    let P = IsOther r in
    let rows = case_rows r a.expanded_cases 0 a.test_cases in
    let buttons : List (View Msg) =
      button "+ Add Manually" false Screen.add
      ∷ button "Drop .zip or Click" false Screen.choose_zip
      ∷ [] in
    let sent =
      AllSent-append P rows buttons (case_rows-AllSent r a.expanded_cases 0 a.test_cases)
        (tt, (tt, tt)) in
    elim (Offers-append (rows ++ buttons) (submit_button name busy a.test_cases) m o) [
      | inl h ↦ inl (Offers-AllSent P (rows ++ buttons) m sent h)
      | inr h ↦ inr h
    ]

abbrev modal : Page → List (View Msg)
modal p =
    label "Problem Forged!"
    ∷ label "Your challenge is now live. Share this secure link with your students."
    ∷ label p.published_url
    ∷ button "" false Screen.copy
    ∷ button "Create Another" false Screen.reset
    ∷ button "Go to Arena" false Screen.go
    ∷ []

module _ (show_time show_memory : Option ℕ → String)
    (read_time read_memory : String → Option ℕ) where
  abbrev first_step : ProblemData → List (View Msg)
  first_step d =
      details show_time show_memory read_time read_memory "Forge New Problem"
        (link "https://katex.org/docs/supported.html" "Math Guide" ∷ []) []
        "Next: Setup Test Cases →" d

  first_step-AllSent : (r : Bool) (d : ProblemData) → AllSent (IsOther r) (first_step d)
  unfolding details preview
  first_step-AllSent r d =
      (λ s. tt, (λ s. tt, (λ s. tt, (λ s. tt, (λ s. tt, (tt, (tt, (tt, tt))))))))

  -- What the page offers is another control's message, or its last button's.
  pub view-cases :
      (p : Page) (m : Msg)
      → Offers (view show_time show_memory read_time read_memory p) m
      → IsOther (can_remove p.accordion) m
        ⊎ Offers (submit_button "Finalize & Publish" p.is_submitting p.accordion.test_cases) m
  unfolding view success_modal
  view-cases p m o =
      let r = can_remove p.accordion in
      let P = IsOther r in
      let A =
        shown_if (is_truthy (some p.status.message) && not p.show_success_modal)
          (status_line p.status) in
      let B = shown_if (p.step == 1) (first_step p.problem_data) in
      let C = shown_if (p.step == 2) (arsenal r "Finalize & Publish" p.is_submitting p.accordion) in
      let D = success_modal p in
      let d = AllSent-shown_if P p.show_success_modal (modal p) (tt, (tt, (tt, tt))) in
      elim (Offers-append (A ++ B ++ C) D m o) [
        | inl o ↦ elim (Offers-append (A ++ B) C m o) [
          | inl o ↦ elim (Offers-append A B m o) [
            | inl h ↦ inl (Offers-AllSent P A m (AllSent-shown_if P _ (status_line p.status) tt) h)
            | inr h ↦ inl (
                Offers-AllSent P B m
                  (AllSent-shown_if P _ (first_step p.problem_data)
                    (first_step-AllSent r p.problem_data))
                  h)
          ]
          | inr h ↦
              let second = arsenal r "Finalize & Publish" p.is_submitting p.accordion in
              let (_, o) = Offers-shown_if (p.step == 2) second m h in
              arsenal-cases r "Finalize & Publish" p.is_submitting p.accordion m o
        ]
        | inr h ↦ inl (Offers-AllSent P D m d h)
      ]
