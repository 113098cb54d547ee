-- ===== src/CodeEditor/Clipboard.antt =====
-- What the editor of a contest lets through.
use campus_compile.Base.{Bool, true, false, [], ◌∷◌, String, ◌≡◌, if◌then◌else◌, one_of, arith}
use campus_compile.CodeEditor.{
  Target, wrapper, textarea, passed, blocked, initial, handle_editor_mount, handler_on,
  on_dom_event, cleanup,
}

-- When the editor of a contest has mounted on its node, every paste and drop on the node or on its
-- text area is blocked and logged once, every copy and cut is blocked without a log, and any other
-- event passes; outside a contest, and after the cleanup, every event passes.
pub clipboard_blocked :
    (code language text type : String) (target : Target) (has_textarea : Bool)
    → let mounted = λ (is_contest : Bool).
      handle_editor_mount is_contest true has_textarea text (initial code language) in
      (on_dom_event target type (mounted true) ≡ (
        if one_of type ("paste" ∷ "drop" ∷ [])
        then blocked true
        else if one_of type ("copy" ∷ "cut" ∷ [])
        then blocked false
        else passed))
      × (on_dom_event target type (mounted false) ≡ passed)
      × (on_dom_event target type (cleanup (mounted true)) ≡ passed)
unfolding handle_editor_mount initial on_dom_event handler_on cleanup
clipboard_blocked code language text type wrapper true = ground arith
clipboard_blocked code language text type wrapper false = ground arith
clipboard_blocked code language text type textarea true = ground arith
clipboard_blocked code language text type textarea false = ground arith
