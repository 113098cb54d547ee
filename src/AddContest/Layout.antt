-- ===== src/AddContest/Layout.antt =====
-- What frontend/src/pages/AddContest.jsx shows. Its rule inputs keep the typed texts.
pub mod Walk
use campus_compile.Base.{
  ℕ, ◌≡◌, ◌≤◌, refl, arith, ◌-◌, ◌+◌, Bool, true, false, Option, none, some, List, [], ◌∷◌, ◌++◌,
  String, ◌==◌, ltb, if◌then◌else◌,
}
use campus_compile.View.{View, label, button, shown_if, wrap}
use campus_compile.ContestForm.{Page}
use campus_compile.ContestForm.Rules.{Field}
use campus_compile.ContestForm.Screens
use campus_compile.ContestForm.Screens.{screen, back_button, next}

pub data Msg : Type 0 where
  form : Screens.Msg → Msg
  save : Msg

unfoldable pub footer : Bool → Page → List (View Msg)
unfolding wrap
footer loading s =
    wrap form (back_button s)
    ++ (if ltb s.current_step 3
        then button "Next Step" false (form next)
        else button (if loading then "Initializing Arena..." else "Launch Contest") loading save)
      ∷ []

abbrev pub empty_text : String
empty_text =
    "No problems found matching this search in your workspace. You need to forge problems first!"

unfoldable pub view :
    (Option ℕ → String) → (String → Option ℕ) → (Field → String) → Bool → Page → List (View Msg)
unfolding footer wrap screen
view show_date read_date shown loading s =
    label "Forge Contest"
      ∷ label "Design your competition and set access rules."
      ∷ wrap form (screen show_date read_date shown empty_text s)
    ++ footer loading s
