-- ===== src/Workbench/Acts.antt =====
-- The page against the engine's machine.
use campus_compile.Base.{
  Bool, false, some, List, [], ◌∷◌, ◌++◌, ◌≡◌, ◌⊎◌, inl, inr, refl, ap, sym, ◌∙◌, Bool-cases,
  Option-cases, is_some, String,
}
use campus_compile.Engine.{Engine, Details, fetch_prev_history, fetch_next_history}
use campus_compile.Engine.Machine.{
  Event, step, run_events, IsSafe, edit, console, prev_history, next_history,
}
use campus_compile.Engine.Machine
use campus_compile.CodeEditor
use campus_compile.CodeEditor.Controls.{idle_controls}
use campus_compile.Console
use campus_compile.SubmissionHistory
use campus_compile.ProblemDescription
use campus_compile.View.Offers.{Offers}
use campus_compile.Paging.{Paged, back, forth, stay, arrow}
use campus_compile.Engine.Machine.Safety.{run_events-IsSafe}
use campus_compile.Workbench.Offered.{editor-Offers}
use campus_compile.Workbench.{
  accepted, rejected, message, broken, rows, problem, entered, load_draft, save_draft, mount,
  submission, key, engine_event, on_engine, is_history_shown, Page, Msg, open_tab, in_description,
  in_history, in_console, in_editor, Outside, Act, click, event, body, act, update, rerender,
  on_code, on_history, receive,
}

-- A click is on an enabled control of the page, which is shown for a problem.
abbrev pub IsOffered : Bool → Bool → Page → Act → Type 0
IsOffered can_edit is_contest p (click m) =
    (d : Details) × (p.engine.problem ≡ some d) × Offers (body can_edit is_contest d p) m
IsOffered can_edit is_contest p (event o) = Unit

unfoldable pub run : Bool → Page → List Act → Page
run is_contest p [] = p
run is_contest p (a ∷ rest) = run is_contest (act is_contest a p) rest

abbrev pub AllOffered : Bool → Bool → Page → List Act → Type 0
AllOffered can_edit is_contest p [] = Unit
AllOffered can_edit is_contest p (a ∷ rest) =
    IsOffered can_edit is_contest p a × AllOffered can_edit is_contest (act is_contest a p) rest

-- The events of the machine that lead from one engine to another.
abbrev Leads : Engine → Engine → Type 0
Leads e e' = (evs : List Event) × (e' ≡ run_events e evs)

run_events-append :
    (e : Engine) (evs fvs : List Event)
    → run_events e (evs ++ fvs) ≡ run_events (run_events e evs) fvs
unfolding run_events
run_events-append e [] fvs = refl
run_events-append e (ev ∷ evs) fvs = run_events-append (step e ev) evs fvs

stays : (e : Engine) → Leads e e
unfolding run_events
stays e = ([], refl)

follow : (e f g : Engine) → Leads e f → Leads f g → Leads e g
follow e f g (evs, p) (fvs, q) =
    (evs ++ fvs, q ∙ (ap (λ x. run_events x fvs) p ∙ sym (run_events-append e evs fvs)))

by_event : (e : Engine) (ev : Event) → Leads e (step e ev)
unfolding run_events
by_event e ev = (ev ∷ [], refl)

rerender-Leads : (p : Page) → Leads p.engine (rerender p).engine
unfolding rerender step
rerender-Leads p = elim (Bool-cases (is_some p.engine.problem)) [
  | inl found ↦ rw found (by_event p.engine (edit _ _))
  | inr missing ↦ rw missing (stays p.engine)
]

on_code-Leads :
    (m : CodeEditor.Msg) (p : Page)
    → ((m ≡ CodeEditor.run) ⊎ (m ≡ CodeEditor.submit) → p.engine.is_processing ≡ false)
    → Leads p.engine (on_code m p).engine
unfolding on_code step run_events
on_code-Leads (CodeEditor.typed value) p idle = by_event p.engine (edit _ _)
on_code-Leads (CodeEditor.choose_language value) p idle = by_event p.engine (edit _ _)
on_code-Leads CodeEditor.reset p idle = stays p.engine
on_code-Leads CodeEditor.cancel p idle = stays p.engine
on_code-Leads CodeEditor.confirm p idle = by_event p.engine (edit _ _)
on_code-Leads CodeEditor.run p idle = (Machine.run ∷ [], rw (idle (inl refl)) refl)
on_code-Leads CodeEditor.submit p idle = (Machine.submit ∷ [], rw (idle (inr refl)) refl)

on_history-Leads : (m : SubmissionHistory.Msg) (p : Page) → Leads p.engine (on_history m p).engine
unfolding on_history step run_events
on_history-Leads (SubmissionHistory.view_submission id) p = stays p.engine
on_history-Leads SubmissionHistory.close p = stays p.engine
on_history-Leads SubmissionHistory.restore p =
    elim (Option-cases (SubmissionHistory.restored p.submissions)) [
      | inl missing ↦ rw (on_history, missing) (stays p.engine)
      | inr (full, found) ↦ rw (on_history, found) (by_event p.engine (edit _ _))
    ]
on_history-Leads SubmissionHistory.prev_page p = by_event p.engine prev_history
on_history-Leads SubmissionHistory.next_page p = by_event p.engine next_history

console-Leads : (m : Console.Msg) (e : Engine) → Leads e (Console.update m e)
unfolding Console.update step run_events
console-Leads Console.toggle e = by_event e (console _ _ _)
console-Leads (Console.show_tab tab) e = by_event e (console _ _ _)
console-Leads (Console.set_custom_input value) e = by_event e (console _ _ _)

update-Leads :
    (can_edit is_contest : Bool) (m : Msg) (p : Page)
    → IsOffered can_edit is_contest p (click m)
    → Leads p.engine (update m p).engine
unfolding update
update-Leads can_edit is_contest (open_tab tab) p h = stays p.engine
update-Leads can_edit is_contest (in_description (ProblemDescription.edit_problem id)) p h =
    stays p.engine
update-Leads can_edit is_contest (in_history m) p h = on_history-Leads m p
update-Leads can_edit is_contest (in_console m) p h = console-Leads m p.engine
update-Leads can_edit is_contest (in_editor m) p (d, shown, o) = on_code-Leads m p (
    idle_controls p.engine.language is_contest p.engine.is_processing p.editor m
      (editor-Offers can_edit is_contest d p m o))

paged-Leads :
    (a : Paged) (e : Engine)
    → Leads e (elim a [ back ↦ fetch_prev_history e | forth ↦ fetch_next_history e | stay ↦ e ])
unfolding step
paged-Leads back e = by_event e prev_history
paged-Leads forth e = by_event e next_history
paged-Leads stay e = stays e

key-Leads :
    (focused pressed : String) (e : Engine)
    → Leads e (SubmissionHistory.handle_key_down focused pressed e)
unfolding SubmissionHistory.handle_key_down
key-Leads focused pressed e = paged-Leads (arrow focused pressed) e

receive-Leads :
    (is_contest : Bool) (o : Outside) (p : Page) → Leads p.engine (receive is_contest o p).engine
unfolding receive engine_event on_engine step run_events
receive-Leads is_contest accepted p = by_event p.engine Machine.accepted
receive-Leads is_contest (rejected reason status) p =
    by_event p.engine (Machine.rejected reason status)
receive-Leads is_contest (message i m) p = by_event p.engine (Machine.message i m)
receive-Leads is_contest (broken i) p = by_event p.engine (Machine.broken i)
receive-Leads is_contest (rows offset subs) p = by_event p.engine (Machine.history offset subs)
receive-Leads is_contest (problem d) p = by_event p.engine (Machine.problem d)
receive-Leads is_contest entered p = by_event p.engine Machine.mounted
receive-Leads is_contest load_draft p = by_event p.engine Machine.load
receive-Leads is_contest save_draft p = by_event p.engine Machine.save
receive-Leads is_contest (mount has_node has_textarea text) p = stays p.engine
receive-Leads is_contest (submission full) p = elim (Bool-cases (is_history_shown p)) [
  | inl shown ↦ rw shown (stays p.engine)
  | inr away ↦ rw away (stays p.engine)
]
receive-Leads is_contest (key focused pressed) p = elim (Bool-cases (is_history_shown p)) [
  | inl shown ↦ rw shown (key-Leads focused pressed p.engine)
  | inr away ↦ rw away (stays p.engine)
]

act-Leads :
    (can_edit is_contest : Bool) (a : Act) (p : Page)
    → IsOffered can_edit is_contest p a
    → Leads p.engine (act is_contest a p).engine
unfolding act
act-Leads can_edit is_contest (click m) p h =
    follow p.engine (update m p).engine (rerender (update m p)).engine
      (update-Leads can_edit is_contest m p h) (rerender-Leads (update m p))
act-Leads can_edit is_contest (event o) p h =
    follow p.engine (receive is_contest o p).engine (rerender (receive is_contest o p)).engine
      (receive-Leads is_contest o p) (rerender-Leads (receive is_contest o p))

-- Whatever the user clicks, among the enabled controls that the page shows, and whatever answers,
-- events, effects, mounts and keys come between, the engine of the page goes through events of its
-- machine, in which a run or a submission does nothing while `isProcessing`: the handlers, which do
-- not check that, are only called when the machine's guard holds.
pub run-run_events :
    (can_edit is_contest : Bool) (p : Page) (acts : List Act)
    → AllOffered can_edit is_contest p acts
    → (evs : List Event) × ((run is_contest p acts).engine ≡ run_events p.engine evs)
unfolding run
run-run_events can_edit is_contest p [] h = stays p.engine
run-run_events can_edit is_contest p (a ∷ rest) (o, os) =
    let p' = act is_contest a p in
    follow p.engine p'.engine (run is_contest p' rest).engine (act-Leads can_edit is_contest a p o)
      (run-run_events can_edit is_contest p' rest os)

-- So the page keeps the engine's invariant.
pub run-IsSafe :
    (can_edit is_contest : Bool) (p : Page) (acts : List Act)
    → AllOffered can_edit is_contest p acts
    → IsSafe p.engine
    → IsSafe (run is_contest p acts).engine
run-IsSafe can_edit is_contest p acts h v =
    let (evs, e) = run-run_events can_edit is_contest p acts h in
    rw e (run_events-IsSafe p.engine evs v)
