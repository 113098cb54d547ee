-- ===== src/AddContest/Layout/Walk.antt =====
-- The steps of the page of a new contest.
use campus_compile.Base.{
  ℕ, ◌≡◌, ◌≤◌, refl, arith, Bool, true, false, Option, [], ◌∷◌, String, ltb, if◌then◌else◌, inl,
  inr,
}
use campus_compile.View.{button, wrap}
use campus_compile.View.Offers.{Offers, Offers-append, Offers-wrap, Offers-AllSent, Offers-shown_if}
use campus_compile.ContestForm.{Page}
use campus_compile.ContestForm.Rules.{Field}
use campus_compile.ContestForm.Screens
use campus_compile.ContestForm.Screens.{screen, update, back, next, back_button}
use campus_compile.ContestForm.Screens.Steps.{Stays, screen-Stays, update-Stays}
use campus_compile.AddContest.Layout.{Msg, form, save, empty_text, view, footer}

-- What a message may do on the page's step.
abbrev pub IsStepped : Page → Msg → Type 0
IsStepped s (form k) = (1 ≤ (update k s).current_step) × ((update k s).current_step ≤ 3)
IsStepped s save = s.current_step ≡ 3

forward_steps :
    (s : Page) (b loading : Bool) (name : String) (m : Msg)
    → 1 ≤ s.current_step
    → s.current_step ≤ 3
    → ltb s.current_step 3 ≡ b
    → Offers ((if b then button "Next Step" false (form next) else button name loading save) ∷ []) m
    → IsStepped s m
unfolding Offers update
forward_steps s true loading name m low high b (inl (d, e)) = rw⁻¹ e (omega arith, ground arith)
forward_steps s true loading name m low high b (inr x) = elim x [ ]
forward_steps s false loading name m low high b (inl (d, e)) = rw⁻¹ e (ground arith)
forward_steps s false loading name m low high b (inr x) = elim x [ ]

back_steps :
    (s : Page) (m : Screens.Msg)
    → s.current_step ≤ 3
    → Offers (back_button s) m
    → IsStepped s (form m)
unfolding Offers update
back_steps s m high h =
    let (low, o) = Offers-shown_if (ltb 1 s.current_step) (button "Back" false back ∷ []) m h in
    elim o [ inl (d, e) ↦ rw⁻¹ e (ground arith, ground arith) | inr x ↦ elim x [ ] ]

-- From a step between 1 and 3, every control that the page offers leads to a step between 1 and 3,
-- and the button that creates the contest is only offered on the third.
pub offered_steps :
    (show_date : Option ℕ → String) (read_date : String → Option ℕ) (shown : Field → String)
    (loading : Bool) (s : Page) (m : Msg)
    → 1 ≤ s.current_step
    → s.current_step ≤ 3
    → Offers (view show_date read_date shown loading s) m
    → IsStepped s m
unfolding view footer Offers
offered_steps show_date read_date shown loading s m low high h =
    let steps = screen show_date read_date shown empty_text s in
    let name : String = if loading then "Initializing Arena..." else "Launch Contest" in
    let turn =
      (if ltb s.current_step 3
        then button "Next Step" false (form next)
        else button name loading save)
      ∷ [] in
    elim (Offers-append (wrap form steps) (footer loading s) m h) [
      | inl l ↦
          let (k, o, e) = Offers-wrap form steps m l in
          let stays = update-Stays k s (
            Offers-AllSent Stays steps k (screen-Stays show_date read_date shown empty_text s) o) in
          rw⁻¹ e (rw stays (low, high))
      | inr r ↦ elim (Offers-append (wrap form (back_button s)) turn m r) [
        | inl l ↦
            let (k, o, e) = Offers-wrap form (back_button s) m l in rw⁻¹ e (back_steps s k high o)
        | inr r ↦ forward_steps s (ltb s.current_step 3) loading name m low high refl r
      ]
    ]
