-- ===== src/Tests/Contests.antt =====
-- Concrete contests: the doors of the list, the form's selection, the leaderboard and the arena.
use text.Mathlib.TextEquality.{eq_iff}
use campus_compile.Base.{
  All, ℕ, Bool, if◌then◌else◌, ◌+◌, inl, trim, trim_start, trim_end, is_white, ◌≡◌, ◌≢◌, ◌↔◌, ◌⊎◌,
  refl, true, false, Option, none, some, List, [], ◌∷◌, String, arith,
}
use campus_compile.Base.Int.{pos}
use campus_compile.View.{wrap}
use campus_compile.View.Offers.{Offers}
use campus_compile.ContestForm
use campus_compile.ContestForm.Rules.{
  AccessRules, default_access_rules, get_rule_value, rule_of, join, handle_array_change,
  allowed_departments,
}
use campus_compile.ContestForm.Rules.Typing.{typed_comma_lost}
use campus_compile.ContestForm.Screens
use campus_compile.ContestForm.Screens.Steps.{is_turn}
use campus_compile.EditContest.Layout.Lock.{locked-Offers, lock_lifted}
use campus_compile.Leaderboard.Board
use campus_compile.Leaderboard.Board.{Player, Alerts, is_elevated, unflagged, view-unflagged}
use campus_compile.ContestList.{
  Contest, Viewer, entry_guard, enter_arena, register_now, registered, locked, before, has_role,
  is_author,
}
use campus_compile.ContestList.Guards.{entry_by_time}
use campus_compile.ContestForm.{
  Form, submission, send, Row, is_selected, is_cached, toggle_problem, update_points,
}
use campus_compile.ContestForm.Selection.{Edit, toggle, points, edit, run, run-IsShown, IsShown}
use campus_compile.AddContest.{initial}
use campus_compile.EditContest
use campus_compile.EditContest.{is_time_locked, load_contest, Assigned, Zone}
use campus_compile.EditContest.Times.{unchanged_iff}
use campus_compile.EditContest.Loaded.{loaded_shown}
use campus_compile.Leaderboard
use campus_compile.Leaderboard.{
  Leaderboard, Standing, answer, message, mount, on_answer, on_message, is_final,
}
use campus_compile.Leaderboard.Stream.{open_source, final_standings}
use campus_compile.Arena
use campus_compile.Arena.{Arena, Step, change, hide, second, enter_page, is_locked, is_prompted}
use campus_compile.Arena.Lockout.{elevated_free, lockout_clock, one_screen, IsTimed, IsReported}

abbrev contest : Contest
contest = record {
  contest_id = "c";
  author_id = "p";
  is_public = true;
  start_time = some 100;
  end_time = some 200;
  access_rules = none;
}

abbrev student : Option Viewer
student = some (record { id = "s"; role = "student" })

entry_by_time_example :
    (before 50 contest.start_time ≡ false → entry_guard 50 student false contest ≡ enter_arena)
    × (before 50 contest.start_time ≡ true
        → (entry_guard 50 student false contest ≡ enter_arena)
          ↔ ((has_role student "admin" ≡ true) ⊎ (is_author student contest ≡ true)))
    × ((entry_guard 50 student false contest ≡ register_now) ↔ (
        (false ≡ false)
        × (has_role student "student" ≡ true)
        × (before 50 contest.start_time ≡ true)
        × (is_author student contest ≡ false)))
    × ((entry_guard 50 student false contest ≡ registered) ↔ (
        (false ≡ true)
        × (has_role student "student" ≡ true)
        × (before 50 contest.start_time ≡ true)
        × (is_author student contest ≡ false)))
    × ((entry_guard 50 student false contest ≡ locked) ↔ (
        (before 50 contest.start_time ≡ true)
        × (has_role student "admin" ≡ false)
        × (is_author student contest ≡ false)
        × (has_role student "student" ≡ false)))
entry_by_time_example = entry_by_time 50 student false contest

abbrev sum_row : Row
sum_row = record { problem_id = "a"; title = "Sum"; difficulty = "Easy" }

abbrev clicks : List Edit
clicks =
    toggle (record { problem_id = "b"; title = "Product"; difficulty = "Hard" })
    ∷ points "a" none
    ∷ []

run-IsShown_example : IsShown (run initial clicks)
unfolding IsShown
run-IsShown_example = run-IsShown initial clicks (λ id h. cc)

abbrev stored : EditContest.Contest
stored = record {
  title = some "Finals";
  host_organization = none;
  start_time = some 60000000;
  end_time = some 120000000;
  is_public = true;
  access_rules = none;
}

abbrev india : Zone
india = record { ahead = 19800000; behind = 0 }

abbrev assigned : List Assigned
assigned = record { row = sum_row; points_value = some (pos 300) } ∷ []

loaded_shown_example :
    is_cached "a" (run (load_contest india stored assigned initial) clicks).assigned_cache ≡ true
unfolding load_contest run edit toggle_problem update_points
loaded_shown_example = loaded_shown india stored assigned initial clicks "a" refl

unchanged_iff_example :
    (f : Form) × (submission (load_contest india stored assigned initial).form_data ≡ send f)
    × ((f.start_time ≡ some 60000000) ↔ (india.ahead ≡ india.behind))
unchanged_iff_example =
    unchanged_iff india stored assigned initial 1000 120000000 refl refl (omega arith)

abbrev live : Standing String
live = record { leaderboard = some ("u1" ∷ []); audit_status = none }

abbrev final : Standing String
final = record { leaderboard = some ("u2" ∷ []); audit_status = some "completed" }

open_source_example :
    let s = Leaderboard.run (mount (some "t")) (answer (some live) ∷ []) in
    (s.is_mounted ≡ true) × (is_final s.audit ≡ false) × (s.is_waiting ≡ false)
unfolding mount Leaderboard.run Leaderboard.step on_answer Leaderboard.status_of
open_source_example = open_source (some "t") (answer (some live) ∷ []) refl

final_standings_example :
    let s = Leaderboard.run (mount (some "t")) (answer (some live) ∷ message (some final) ∷ []) in
    ((Leaderboard.run s (message (some live) ∷ [])).rows ≡ s.rows)
    × ((Leaderboard.run s (message (some live) ∷ [])).audit ≡ s.audit)
unfolding mount Leaderboard.run Leaderboard.step on_answer on_message Leaderboard.status_of
final_standings_example =
    final_standings (some "t") (answer (some live) ∷ message (some final) ∷ [])
      (message (some live) ∷ []) refl refl

abbrev visits : List Step
visits = change true 5 ∷ change false 9 ∷ second 3009 ∷ []

lockout_clock_example :
    let a = Arena.run (enter_page (some "student") (some "c") false) visits in
    ((is_locked a ≡ true) ↔ (a.leave_time ≢ 0)) × (is_locked a ≡ false → a.time_away ≡ 0)
unfolding IsTimed
lockout_clock_example =
    lockout_clock (some "student") (some "c") false visits
      (omega arith, (omega arith, (omega arith, tt)))

abbrev moves : List Step
moves = Arena.leave 10 ∷ Arena.timeout 0 true 50000 ∷ hide true 50001 ∷ Arena.flush ∷ visits

elevated_free_example :
    let a = Arena.run (enter_page (some "admin") (some "c") false) moves in
    (is_locked a ≡ false)
    × (a.tab_violations ≡ 0)
    × (a.telemetry.event_buffer ≡ [])
    × (a.telemetry.posted ≡ [])
elevated_free_example = elevated_free (some "admin") (some "c") false moves (inl refl)

one_screen_example :
    let a = Arena.run (enter_page (some "student") (some "c") false) visits in
    let count : Bool → ℕ = λ b. if b then 1 else 0 in
    (a.is_elevated ≡ false
      → count (is_prompted a) + count (is_locked a) + count a.is_fullscreen ≡ 1)
    × (All IsReported visits → a.is_fullscreen ≡ true → a.document_fullscreen ≡ true)
    × (a.is_elevated ≡ true → (is_prompted a ≡ false) × (is_locked a ≡ false))
unfolding IsTimed
one_screen_example =
    one_screen (some "student") (some "c") false visits
      (omega arith, (omega arith, (omega arith, tt)))

abbrev cs_only : AccessRules
cs_only = record default_access_rules { departments = some ("CSE" ∷ []) }

typed_comma_lost_example :
    get_rule_value allowed_departments (handle_array_change allowed_departments "CSE," cs_only)
    ≡ "CSE"
unfolding get_rule_value rule_of join trim trim_start trim_end is_white
typed_comma_lost_example =
    typed_comma_lost allowed_departments cs_only tt ((refl, refl, (refl, (refl, (refl, tt)))), tt)

abbrev started : ContestForm.Page
started = record initial { form_data = record initial.form_data { start_time = some 100 } }

ordinary : ◌≢◌ {A = Option String} (some "professor") (some "admin")
ordinary = ground (arith, eq_iff "professor" "admin")

locked-Offers_example :
    (k : Screens.Msg) × (EditContest.Layout.form (Screens.search "x") ≡ EditContest.Layout.form k)
    × (is_turn k ≡ false)
unfolding is_time_locked EditContest.Layout.view Screens.screen Screens.arena_setup Screens.pinned
    Offers wrap
locked-Offers_example =
    locked-Offers (λ o. "") (λ v. none) 150 100 (some "professor") false
      (record started { current_step = 3 }) (EditContest.Layout.form (Screens.search "x")) refl
      (omega arith) ordinary (inl (refl, ("x", refl)))

lock_lifted_example :
    let typed = Screens.change (Screens.start_time (some 200)) in
    Offers
      (EditContest.Layout.view (λ o. "") (λ v. some 200) 150 (some "professor") false started)
      (EditContest.Layout.form typed)
    × Offers
        (EditContest.Layout.view
          (λ o. "")
          (λ v. some 200)
          150
          (some "professor")
          false
          (Screens.update typed started))
        (EditContest.Layout.form Screens.next)
lock_lifted_example =
    lock_lifted (λ o. "") (λ v. some 200) 150 200 (some "professor") false started "later" refl refl
      (omega arith)

abbrev flagged : Player
flagged = record {
  rank = 1;
  username = "u";
  solves = 2;
  penalty = 30;
  alerts = some (record {
    total = 1;
    blur = 1;
    paste_attempt = 0;
    autotyper_suspected = 0;
    visibility_spoof_suspected = 0;
    anomalous_routing = 0;
  });
}

abbrev standings : Leaderboard Player
standings = record (mount none) { rows = flagged ∷ []; loading = false; connection_error = false }

view-unflagged_example :
    Board.view (is_elevated (some "student")) standings
    ≡ Board.view (is_elevated (some "student")) (record standings { rows = unflagged flagged ∷ [] })
unfolding is_elevated
view-unflagged_example = view-unflagged (some "student") standings refl
