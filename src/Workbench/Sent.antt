-- ===== src/Workbench/Sent.antt =====
-- What a run or a submission of a page sends.
use campus_compile.Base.{
  Bool, true, none, some, List, [], ◌∷◌, String, ◌≡◌, inl, inr, refl, arith, Bool-cases, is_some,
}
use campus_compile.Engine.{post_submit, post_run, handle_submit, handle_run_code}
use campus_compile.CodeEditor.{submit}
use campus_compile.CodeEditor
use campus_compile.Workbench.{Page, Act, click, in_editor, act, rerender, update, on_code}
use campus_compile.Workbench.Acts.{run}
use campus_compile.Workbench.Settled.{IsFresh, IsSynced}
use campus_compile.Workbench.Synced.{act-IsSynced}

abbrev pub AllFresh : Bool → Page → List Act → Type 0
AllFresh is_contest p [] = Unit
AllFresh is_contest p (a ∷ rest) = IsFresh p a × AllFresh is_contest (act is_contest a p) rest

run-IsSynced :
    (is_contest : Bool) (p : Page) (acts : List Act)
    → AllFresh is_contest p acts
    → IsSynced p
    → IsSynced (run is_contest p acts)
unfolding run
run-IsSynced is_contest p [] f v = v
run-IsSynced is_contest p (a ∷ rest) (f, fs) v =
    run-IsSynced is_contest (act is_contest a p) rest fs (act-IsSynced is_contest a p f v)

rerender_sent : (p : Page) → (rerender p).engine.sent ≡ p.engine.sent
unfolding rerender
rerender_sent p = elim (Bool-cases (is_some p.engine.problem)) [
  | inl found ↦ rw found refl
  | inr missing ↦ rw missing refl
]

-- From a page that waits for its problem, after any clicks and events in which each typed text
-- differs from the code before it and Monaco mounts with the page's code: the text that the editor
-- shows is the source that a click on "Submit" or on "Run" sends, with the language of the box.
pub submit_sends_shown :
    (is_contest : Bool) (start : Page) (acts : List Act) (text : String)
    → start.engine.problem ≡ none
    → AllFresh is_contest start acts
    → is_some (run is_contest start acts).engine.problem ≡ true
    → (run is_contest start acts).editor.shown ≡ some text
    → let p = run is_contest start acts in
      let after = λ (m : CodeEditor.Msg). (act is_contest (click (in_editor m)) p).engine.sent in
      (after submit
        ≡ post_submit p.engine.problem_id p.engine.contest_id p.engine.language text
          ∷ p.engine.sent)
      × (after CodeEditor.run
          ≡ post_run p.engine.language text p.engine.custom_input ∷ p.engine.sent)
unfolding act update on_code handle_submit handle_run_code
submit_sends_shown is_contest start acts text waits fresh found shown =
    let p = run is_contest start acts in
    let (_, _, _, s) = run-IsSynced is_contest start acts fresh (λ e. ground arith) found in
    let same : text ≡ p.engine.code = elim s [ inl n ↦ cc | inr t ↦ cc ] in
    rw same (
      rerender_sent (update (in_editor submit) p),
      rerender_sent (update (in_editor CodeEditor.run) p),
    )
