-- ===== src/EditContest/Layout/Lock.antt =====
-- The time lock of the page.
use text.Mathlib.TextEquality.{eq_iff}
use campus_compile.Base.{
  ℕ, ◌<◌, ◌≤◌, ◌≢◌, ap, str_eq, Bool-cases, Bool, true, false, Option, none, some, [], ◌∷◌, String,
  ◌≡◌, inl, inr, refl, sym, arith,
}
use campus_compile.View.{button, wrap, shown_if}
use campus_compile.View.Offers.{
  Offers, Offers-append, Offers-left, Offers-right, Offers-wrap, wrap-Offers, Offers-AllSent,
}
use campus_compile.ContestForm.{Page, Form}
use campus_compile.ContestForm.Screens
use campus_compile.ContestForm.Screens.{screen, next, change, start_time, update, handle_change}
use campus_compile.ContestForm.Screens.Steps.{Stays, is_turn, screen-Stays, start_offered}
use campus_compile.EditContest.{is_time_locked}
use campus_compile.EditContest.Layout.{
  Msg, form, delete, shown_rule, empty_text, view, footer, can_delete,
}

no_footer :
    (now : ℕ) (role : Option String) (saving : Bool) (s : Page) (m : Msg)
    → is_time_locked now role s.form_data ≡ true
    → Offers (footer now role saving s) m
    → ⊥
unfolding footer Offers
no_footer now role saving s m locked h = simp locked at h

started-locked :
    (now t : ℕ) (role : Option String) (f : Form)
    → f.start_time ≡ some t
    → t ≤ now
    → role ≢ some "admin"
    → is_time_locked now role f ≡ true
unfolding is_time_locked
started-locked now t none f start started ordinary = ground arith
started-locked now t (some role) f start started ordinary =
    elim (Bool-cases (str_eq role "admin")) [
      | inl same ↦ elim (ordinary (ap some ((eq_iff role "admin").0 same))) [ ]
      | inr other ↦ ground arith
    ]

-- A page whose form holds a start time that has passed offers a user who is no administrator only
-- the inputs of the shown step: it can neither be saved nor deleted, nor turned to another step.
pub locked-Offers :
    (show_date : Option ℕ → String) (read_date : String → Option ℕ) (now t : ℕ)
    (role : Option String) (saving : Bool) (s : Page) (m : Msg)
    → s.form_data.start_time ≡ some t
    → t ≤ now
    → role ≢ some "admin"
    → Offers (view show_date read_date now role saving s) m
    → (k : Screens.Msg) × (m ≡ form k) × (is_turn k ≡ false)
unfolding view footer Offers
locked-Offers show_date read_date now t role saving s m start started ordinary h =
    let locked = started-locked now t role s.form_data start started ordinary in
    let steps = screen show_date read_date (shown_rule s) empty_text s in
    elim (Offers-append (wrap form steps) (footer now role saving s) m h) [
      | inl l ↦
          let (k, o, e) = Offers-wrap form steps m l in
          (
            k,
            sym e,
            Offers-AllSent Stays steps k
                (screen-Stays show_date read_date (shown_rule s) empty_text s) o,
          )
      | inr r ↦ elim (no_footer now role saving s m locked r) [ ]
    ]

open_footer :
    (now : ℕ) (role : Option String) (saving : Bool) (s : Page)
    → is_time_locked now role s.form_data ≡ false
    → s.current_step ≡ 1
    → Offers (footer now role saving s) (form next)
unfolding footer Offers
open_footer now role saving s unlocked one =
    rw (unlocked, one)
      (Offers-right
        (shown_if (can_delete role s.form_data) (button "Delete Arena" saving delete ∷ []))
        (button "Next Step" false (form next) ∷ []) (form next) (inl (refl, refl)))

later_start :
    (now t : ℕ) (role : Option String) (s : Page)
    → now < t
    → is_time_locked now role (update (change (start_time (some t))) s).form_data ≡ false
unfolding is_time_locked update handle_change
later_start now t none s h = ground arith
later_start now t (some role) s h = ground arith

-- The lock reads the start time of the form itself: the first step of a locked page offers that
-- input, and any later date typed into it brings back the button to the next step, whoever the
-- user is.
pub lock_lifted :
    (show_date : Option ℕ → String) (read_date : String → Option ℕ) (now t : ℕ)
    (role : Option String) (saving : Bool) (s : Page) (v : String)
    → s.current_step ≡ 1
    → read_date v ≡ some t
    → now < t
    → let typed = change (start_time (read_date v)) in
      Offers (view show_date read_date now role saving s) (form typed)
      × Offers (view show_date read_date now role saving (update typed s)) (form next)
unfolding view Offers update handle_change
lock_lifted show_date read_date now t role saving s v one read later =
    let typed = change (start_time (read_date v)) in
    let steps = λ (s : Page). screen show_date read_date (shown_rule s) empty_text s in
    let open_now : is_time_locked now role (update typed s).form_data ≡ false =
      rw read (later_start now t role s later) in
    (
      Offers-left (wrap form (steps s)) (footer now role saving s) (form typed) (
          wrap-Offers form (steps s) typed
            (start_offered show_date read_date (shown_rule s) empty_text s v one)),
      Offers-right (wrap form (steps (update typed s))) (footer now role saving (update typed s))
          (form next) (open_footer now role saving (update typed s) open_now one),
    )
