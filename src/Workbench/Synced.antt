-- ===== src/Workbench/Synced.antt =====
-- The page's editor against the code that the page would send.
use campus_compile.Base.{
  Bool, true, false, some, String, ◌≡◌, inl, inr, refl, ap, sym, ◌∙◌, arith, Bool-cases,
  Option-cases, is_some,
}
use campus_compile.Engine.{Engine, fetch_prev_history, fetch_next_history, fetch_history}
use campus_compile.Paging.{Paged, back, forth, stay, arrow}
use campus_compile.CodeEditor
use campus_compile.CodeEditor.{CodeEditor}
use campus_compile.CodeEditor.Sync.{typed, change, typed-InSync}
use campus_compile.Console
use campus_compile.SubmissionHistory
use campus_compile.ProblemDescription
use campus_compile.Workbench.Settled.{IsSynced, IsFresh, attuned, settled}
use campus_compile.Workbench.{
  Page, Msg, open_tab, in_description, in_history, in_console, in_editor, Outside, accepted,
  rejected, message, broken, rows, problem, entered, load_draft, save_draft, mount, submission, key,
  Act, click, event, act, update, rerender, on_code, on_history, receive, on_engine,
  is_history_shown, desk, engine_event,
}

on_code-IsSynced :
    (m : CodeEditor.Msg) (p : Page)
    → IsFresh p (click (in_editor m))
    → IsSynced p
    → IsSynced (rerender (on_code m p))
unfolding on_code rerender change
on_code-IsSynced (CodeEditor.typed value) p fresh v = elim (Bool-cases (is_some p.engine.problem)) [
  | inl found ↦
      rw found (λ e.
        attuned (change (desk p) (typed value)) (typed-InSync (desk p) value (v found).0 fresh))
  | inr missing ↦ rw missing (λ e. cc)
]
on_code-IsSynced (CodeEditor.choose_language value) p fresh v =
    settled (on_code (CodeEditor.choose_language value) p) p.engine.code p.engine.language v
on_code-IsSynced CodeEditor.reset p fresh v =
    settled (on_code CodeEditor.reset p) p.engine.code p.engine.language v
on_code-IsSynced CodeEditor.cancel p fresh v =
    settled (on_code CodeEditor.cancel p) p.engine.code p.engine.language v
on_code-IsSynced CodeEditor.confirm p fresh v =
    settled (on_code CodeEditor.confirm p) p.engine.code p.engine.language v
on_code-IsSynced CodeEditor.run p fresh v =
    settled (on_code CodeEditor.run p) p.engine.code p.engine.language v
on_code-IsSynced CodeEditor.submit p fresh v =
    settled (on_code CodeEditor.submit p) p.engine.code p.engine.language v

-- The pages of the history are asked for with the problem as it is.
paged-IsSynced :
    (p : Page) (e : Engine)
    → e.problem ≡ p.engine.problem
    → IsSynced p
    → IsSynced (rerender (record p { engine = e }))
paged-IsSynced p e same v =
    settled (record p { engine = e }) p.engine.code p.engine.language
      (λ h. v (ap is_some (sym same) ∙ h))

pages_problem :
    (e : Engine)
    → ((fetch_prev_history e).problem ≡ e.problem) × ((fetch_next_history e).problem ≡ e.problem)
unfolding fetch_prev_history fetch_next_history fetch_history
pages_problem e = (ground arith, ground arith)

on_history-IsSynced :
    (m : SubmissionHistory.Msg) (p : Page) → IsSynced p → IsSynced (rerender (on_history m p))
unfolding on_history
on_history-IsSynced (SubmissionHistory.view_submission id) p v =
    settled (on_history (SubmissionHistory.view_submission id) p) p.engine.code p.engine.language v
on_history-IsSynced SubmissionHistory.close p v =
    settled (on_history SubmissionHistory.close p) p.engine.code p.engine.language v
on_history-IsSynced SubmissionHistory.restore p v =
    elim (Option-cases (SubmissionHistory.restored p.submissions)) [
      | inl missing ↦ rw (on_history, missing) (settled p p.engine.code p.engine.language v)
      | inr ((code, language), found) ↦
          rw (on_history, found)
            (settled
              (record p {
                engine = record p.engine { code = code; language = language };
                submissions = SubmissionHistory.close_modal p.submissions;
              })
              p.engine.code p.engine.language v)
    ]
on_history-IsSynced SubmissionHistory.prev_page p v =
    paged-IsSynced p (fetch_prev_history p.engine) (pages_problem p.engine).0 v
on_history-IsSynced SubmissionHistory.next_page p v =
    paged-IsSynced p (fetch_next_history p.engine) (pages_problem p.engine).1 v

update-IsSynced :
    (m : Msg) (p : Page) → IsFresh p (click m) → IsSynced p → IsSynced (rerender (update m p))
unfolding update Console.update
update-IsSynced (open_tab tab) p fresh v =
    settled (update (open_tab tab) p) p.engine.code p.engine.language v
update-IsSynced (in_description (ProblemDescription.edit_problem id)) p fresh v =
    settled (update (in_description (ProblemDescription.edit_problem id)) p) p.engine.code
      p.engine.language v
update-IsSynced (in_history m) p fresh v = on_history-IsSynced m p v
update-IsSynced (in_console Console.toggle) p fresh v =
    paged-IsSynced p (Console.update Console.toggle p.engine) refl v
update-IsSynced (in_console (Console.show_tab tab)) p fresh v =
    paged-IsSynced p (Console.update (Console.show_tab tab) p.engine) refl v
update-IsSynced (in_console (Console.set_custom_input value)) p fresh v =
    paged-IsSynced p (Console.update (Console.set_custom_input value) p.engine) refl v
update-IsSynced (in_editor m) p fresh v = on_code-IsSynced m p fresh v

-- An event of the engine; the first problem brings an editor that has seen the code.
on_engine-IsSynced : (e : Engine) (p : Page) → IsSynced p → IsSynced (rerender (on_engine e p))
unfolding on_engine CodeEditor.initial
on_engine-IsSynced e p v = elim (Bool-cases (is_some p.engine.problem)) [
  | inl found ↦ settled (on_engine e p) p.engine.code p.engine.language (λ h. rw found (v found))
  | inr missing ↦
      settled (on_engine e p) e.code e.language (λ h. rw (missing, h) (refl, refl, refl, inl refl))
]

abbrev turn : Paged → Engine → Engine
turn a e = elim a [ back ↦ fetch_prev_history e | forth ↦ fetch_next_history e | stay ↦ e ]

paged_problem : (a : Paged) (e : Engine) → (turn a e).problem ≡ e.problem
paged_problem back e = (pages_problem e).0
paged_problem forth e = (pages_problem e).1
paged_problem stay e = refl

mount_fields :
    (is_contest has_node has_textarea : Bool) (text : String) (e : CodeEditor)
    → let e' = CodeEditor.handle_editor_mount is_contest has_node has_textarea text e in
      (e'.seen_code ≡ e.seen_code)
      × (e'.seen_language ≡ e.seen_language)
      × (e'.is_internal_change ≡ e.is_internal_change)
      × (e'.shown ≡ some text)
unfolding CodeEditor.handle_editor_mount CodeEditor.attach_all CodeEditor.attach_event
mount_fields false has_node has_textarea text e = (refl, refl, refl, refl)
mount_fields true false has_textarea text e = (refl, refl, refl, refl)
mount_fields true true false text e = (refl, refl, refl, refl)
mount_fields true true true text e = (refl, refl, refl, refl)

receive-IsSynced :
    (is_contest : Bool) (o : Outside) (p : Page)
    → IsFresh p (event o)
    → IsSynced p
    → IsSynced (rerender (receive is_contest o p))
unfolding receive engine_event SubmissionHistory.handle_key_down
receive-IsSynced is_contest accepted p fresh v = on_engine-IsSynced _ p v
receive-IsSynced is_contest (rejected reason status) p fresh v = on_engine-IsSynced _ p v
receive-IsSynced is_contest (message i m) p fresh v = on_engine-IsSynced _ p v
receive-IsSynced is_contest (broken i) p fresh v = on_engine-IsSynced _ p v
receive-IsSynced is_contest (rows offset subs) p fresh v = on_engine-IsSynced _ p v
receive-IsSynced is_contest (problem d) p fresh v = on_engine-IsSynced _ p v
receive-IsSynced is_contest entered p fresh v = on_engine-IsSynced _ p v
receive-IsSynced is_contest load_draft p fresh v = on_engine-IsSynced _ p v
receive-IsSynced is_contest save_draft p fresh v = on_engine-IsSynced _ p v
receive-IsSynced is_contest (mount has_node has_textarea text) p fresh v =
    settled (receive is_contest (mount has_node has_textarea text) p) p.engine.code
      p.engine.language
      (λ h.
        let (seen, language, flag, shown) =
          mount_fields is_contest has_node has_textarea text p.editor in
        let (c, l, f, _) = v h in (seen ∙ c, language ∙ l, flag ∙ f, inr (shown ∙ ap some fresh)))
receive-IsSynced is_contest (submission full) p fresh v = elim (Bool-cases (is_history_shown p)) [
  | inl shown ↦ rw shown (
      settled (record p { submissions = SubmissionHistory.on_submission full p.submissions })
        p.engine.code p.engine.language v)
  | inr away ↦ rw away (settled p p.engine.code p.engine.language v)
]
receive-IsSynced is_contest (key focused pressed) p fresh v =
    elim (Bool-cases (is_history_shown p)) [
      | inl shown ↦ rw shown (
          paged-IsSynced p (turn (arrow focused pressed) p.engine)
            (paged_problem (arrow focused pressed) p.engine) v)
      | inr away ↦ rw away (settled p p.engine.code p.engine.language v)
    ]

pub act-IsSynced :
    (is_contest : Bool) (a : Act) (p : Page)
    → IsFresh p a
    → IsSynced p
    → IsSynced (act is_contest a p)
unfolding act
act-IsSynced is_contest (click m) p fresh v = update-IsSynced m p fresh v
act-IsSynced is_contest (event o) p fresh v = receive-IsSynced is_contest o p fresh v
