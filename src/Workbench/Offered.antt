-- ===== src/Workbench/Offered.antt =====
-- The messages of the code editor on the page.
use campus_compile.Base.{Bool, true, false, List, ◌++◌, ◌≡◌, inl, inr, if◌then◌else◌, str_eq}
use campus_compile.Engine.{Details}
use campus_compile.CodeEditor
use campus_compile.Console
use campus_compile.SubmissionHistory
use campus_compile.ProblemDescription
use campus_compile.View.{View, wrap}
use campus_compile.View.Offers.{Offers, Offers-append, Offers-wrap}
use campus_compile.Workbench.{Page, in_description, in_history, in_console, in_editor, body}

left-Offers :
    (b : Bool) (vs : List (View SubmissionHistory.Msg)) (ws : List (View ProblemDescription.Msg))
    (m : CodeEditor.Msg)
    → Offers (if b then wrap in_history vs else wrap in_description ws) (in_editor m)
    → ⊥
left-Offers true vs ws m h = let (k, o, e) = Offers-wrap in_history vs (in_editor m) h in cc
left-Offers false vs ws m h = let (k, o, e) = Offers-wrap in_description ws (in_editor m) h in cc

editor_part :
    (vs : List (View CodeEditor.Msg)) (m : CodeEditor.Msg)
    → Offers (wrap in_editor vs) (in_editor m)
    → Offers vs m
editor_part vs m h =
    let (k, o, e) = Offers-wrap in_editor vs (in_editor m) h in let same : k ≡ m = cc in rw⁻¹ same o

console_part :
    (ws : List (View Console.Msg)) (m : CodeEditor.Msg)
    → Offers (wrap in_console ws) (in_editor m)
    → ⊥
console_part ws m h = let (k, o, e) = Offers-wrap in_console ws (in_editor m) h in cc

-- A message of the code editor is one that the code editor offers.
pub editor-Offers :
    (can_edit is_contest : Bool) (d : Details) (p : Page) (m : CodeEditor.Msg)
    → Offers (body can_edit is_contest d p) (in_editor m)
    → Offers (CodeEditor.view p.engine.language is_contest p.engine.is_processing p.editor) m
unfolding body Offers
editor-Offers can_edit is_contest d p m (inl (x, e)) = cc
editor-Offers can_edit is_contest d p m (inr (inl (x, e))) = cc
editor-Offers can_edit is_contest d p m (inr (inr h)) =
    let left = SubmissionHistory.view p.engine p.submissions in
    let text = ProblemDescription.view d can_edit p.engine.submit_status p.engine.language in
    let right = CodeEditor.view p.engine.language is_contest p.engine.is_processing p.editor in
    let b = str_eq p.left_tab "history" in
    let first = if b then wrap in_history left else wrap in_description text in
    let last = Console.view p.engine in
    elim (Offers-append (first ++ wrap in_editor right) (wrap in_console last) (in_editor m) h) [
      | inl l ↦ elim (Offers-append first (wrap in_editor right) (in_editor m) l) [
        | inl l ↦ elim (left-Offers b left text m l) [ ]
        | inr r ↦ editor_part right m r
      ]
      | inr r ↦ elim (console_part last m r) [ ]
    ]
