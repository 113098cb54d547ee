-- ===== src/ContestForm/Screens/Steps.antt =====
-- What the steps of the form send: no control of a step turns to another step.
use campus_compile.Base.{
  ℕ, Bool, true, false, not, Option, List, [], ◌∷◌, ◌++◌, String, ◌≡◌, refl, ◌==◌, if◌then◌else◌,
  keep_if, ◌&&◌, inl, inr,
}
use campus_compile.Paging.Controls.{has_turns, turn_buttons}
use campus_compile.View.{View, label, input, shown_if}
use campus_compile.View.Offers.{Offers, AllSent, AllSent-append, AllSent-shown_if}
use campus_compile.ContestForm.{
  Form, Page, Row, Selected, is_selected, toggle_problem, update_points,
}
use campus_compile.ContestForm.Rules.{Field}
use campus_compile.ContestForm.Screens.{
  start_time, update, Msg, back, next, change, rule, toggle, points, search, prev_problems,
  next_problems, details, access_control, selected_rows, available_rows, paging, arena_setup,
  screen, pinned, picker,
}

abbrev pub is_turn : Msg → Bool
is_turn back = true
is_turn next = true
is_turn _ = false

abbrev pub Stays : Msg → Type 0
Stays m = is_turn m ≡ false

selected_rows-Stays : (ps : List Selected) (s : Page) → AllSent Stays (selected_rows ps s)
unfolding selected_rows
selected_rows-Stays [] s = tt
selected_rows-Stays (p ∷ ps) s = (refl, ((λ v. refl), selected_rows-Stays ps s))

available_rows-Stays : (ps : List Row) → AllSent Stays (available_rows ps)
unfolding available_rows
available_rows-Stays [] = tt
available_rows-Stays (p ∷ ps) = (refl, available_rows-Stays ps)

paging-Stays : (s : Page) → AllSent Stays (paging s)
unfolding paging
paging-Stays s =
    let p = s.available_problems in
    AllSent-shown_if Stays (not s.fetching_problems && has_turns p)
      (turn_buttons prev_problems next_problems p) (refl, (refl, tt))

pinned-Stays : (ps : List Selected) (s : Page) → AllSent Stays (pinned ps s)
unfolding pinned
pinned-Stays [] s = tt
pinned-Stays (p ∷ ps) s = selected_rows-Stays (p ∷ ps) s

picker-Stays : (empty : String) (ps : List Row) (s : Page) → AllSent Stays (picker empty ps s)
unfolding picker
picker-Stays empty [] s = tt
picker-Stays empty (p ∷ ps) s =
    AllSent-append Stays
      (available_rows (keep_if (λ p. not (is_selected p.problem_id s.form_data.problems)) (p ∷ ps)))
      (paging s) (available_rows-Stays _) (paging-Stays s)

loading-Stays :
    (b : Bool) (vs : List (View Msg))
    → AllSent Stays vs
    → AllSent Stays (if b then label "Loading workspace..." ∷ [] else vs)
loading-Stays true vs a = tt
loading-Stays false vs a = a

arena_setup-Stays : (empty : String) (s : Page) → AllSent Stays (arena_setup empty s)
unfolding arena_setup
arena_setup-Stays empty s =
    AllSent-append Stays (pinned s.form_data.problems s)
      (input s.search_query false search
        ∷ (if s.fetching_problems && s.available_problems.offset == 0
            then label "Loading workspace..." ∷ []
            else picker empty s.available_problems.rows s))
      (pinned-Stays s.form_data.problems s)
      (
        (λ v. refl),
        loading-Stays _ (picker empty s.available_problems.rows s)
            (picker-Stays empty s.available_problems.rows s),
      )

details-Stays :
    (show_date : Option ℕ → String) (read_date : String → Option ℕ) (f : Form)
    → AllSent Stays (details show_date read_date f)
unfolding details
details-Stays show_date read_date f =
    ((λ v. refl), ((λ v. refl), ((λ v. refl), ((λ v. refl), (refl, tt)))))

access_control-Stays : (shown : Field → String) → AllSent Stays (access_control shown)
unfolding access_control
access_control-Stays shown =
    ((λ v. refl), ((λ v. refl), ((λ v. refl), ((λ v. refl), ((λ v. refl), ((λ v. refl), tt))))))

pub screen-Stays :
    (show_date : Option ℕ → String) (read_date : String → Option ℕ) (shown : Field → String)
    (empty : String) (s : Page)
    → AllSent Stays (screen show_date read_date shown empty s)
unfolding screen
screen-Stays show_date read_date shown empty s =
    let one = shown_if (s.current_step == 1) (details show_date read_date s.form_data) in
    let two = shown_if (s.current_step == 2) (access_control shown) in
    let three = shown_if (s.current_step == 3) (arena_setup empty s) in
    AllSent-append Stays (one ++ two) three
      (AllSent-append Stays one two
        (AllSent-shown_if Stays _ (details show_date read_date s.form_data)
          (details-Stays show_date read_date s.form_data))
        (AllSent-shown_if Stays _ (access_control shown) (access_control-Stays shown)))
      (AllSent-shown_if Stays _ (arena_setup empty s) (arena_setup-Stays empty s))

-- The first step offers every start time that the browser reads.
pub start_offered :
    (show_date : Option ℕ → String) (read_date : String → Option ℕ) (shown : Field → String)
    (empty : String) (s : Page) (v : String)
    → s.current_step ≡ 1
    → Offers (screen show_date read_date shown empty s) (change (start_time (read_date v)))
unfolding screen details Offers
start_offered show_date read_date shown empty s v one = rw one (inr (inr (inl (refl, (v, refl)))))

-- A message of a step leaves the page on its step.
pub update-Stays : (k : Msg) (s : Page) → Stays k → (update k s).current_step ≡ s.current_step
unfolding update toggle_problem update_points
update-Stays (change c) s h = refl
update-Stays (rule field value) s h = refl
update-Stays (toggle prob) s h = refl
update-Stays (points problem_id value) s h = refl
update-Stays (search value) s h = refl
update-Stays prev_problems s h = refl
update-Stays next_problems s h = refl
update-Stays back s h = cc
update-Stays next s h = cc
