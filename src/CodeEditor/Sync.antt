-- ===== src/CodeEditor/Sync.antt =====
-- The editor's text against the parent's code: what is shown is what a run or a submission sends.
use text.Mathlib.TextEquality.{eq_iff}
use text.Mathlib.TextPositions.{eq_refl}
use campus_compile.Base.{
  true, false, some, List, [], ◌∷◌, String, ◌≡◌, ◌≢◌, refl, ap, sym, ◌∙◌, str_eq, ◌&&◌, arith,
  Bool-cases, inl, inr,
}
use campus_compile.CodeEditor.{CodeEditor, sync_effect, handle_editor_change}

-- The editor with the two variables of the parent.
pub record Desk : Type 0 where
  pub code : String
  pub language : String
  pub editor : CodeEditor

pub data Change : Type 0 where
  typed : String → Change
  external : String → String → Change

unfoldable pub write : Change → Desk → Desk
unfolding handle_editor_change
write (typed value) d = record d { code = value; editor = handle_editor_change value d.editor }
write (external code language) d = record d { code = code; language = language }

-- A render, with its effect; and the two that a change causes at most.
unfoldable pub render : Desk → Desk
unfolding sync_effect
render d =
    let (e, code) = sync_effect d.code d.language d.editor in record d { code = code; editor = e }

unfoldable pub change : Desk → Change → Desk
unfolding write render
change d c = render (render (write c d))

unfoldable pub change_all : Desk → List Change → Desk
change_all d [] = d
change_all d (c ∷ cs) = change_all (change d c) cs

pub record InSync (d : Desk) : Type 0 where
  pub shown : d.editor.shown ≡ some d.code
  pub flag : d.editor.is_internal_change ≡ false
  pub code : d.editor.seen_code ≡ d.code
  pub language : d.editor.seen_language ≡ d.language

-- A typed text differs from the one before it.
abbrev pub IsFresh : Desk → Change → Type 0
IsFresh d (typed value) = value ≢ d.code
IsFresh d (external code language) = Unit

abbrev pub AllFresh : Desk → List Change → Type 0
AllFresh d [] = Unit
AllFresh d (c ∷ cs) = IsFresh d c × AllFresh (change d c) cs

neq : (a b : String) → a ≢ b → str_eq a b ≡ false
neq a b h = ground (arith, eq_iff a b)

-- The editor shows the code and does not take it for typed.
abbrev IsQuiet : Desk → Type 0
IsQuiet d = (d.editor.shown ≡ some d.code) × (d.editor.is_internal_change ≡ false)

render_same :
    (d : Desk)
    → d.editor.shown ≡ some d.code
    → (str_eq d.code d.editor.seen_code ≡ true → d.editor.is_internal_change ≡ false)
    → InSync (render d)
unfolding render
render_same d shown flag =
    elim (Bool-cases
      (str_eq d.code d.editor.seen_code && str_eq d.language d.editor.seen_language)) [
        | inl t ↦ rw t (record {
          shown = shown;
          flag = ground (arith);
          code = ground (arith, eq_iff d.code d.editor.seen_code);
          language = ground (arith, eq_iff d.language d.editor.seen_language);
        })
        | inr f ↦
            rw (f, shown, eq_refl d.code)
              (elim (Bool-cases d.editor.is_internal_change) [
                | inl t ↦ rw t (record { shown = refl; flag = refl; code = refl; language = refl })
                | inr u ↦ rw u (record { shown = refl; flag = refl; code = refl; language = refl })
              ])
      ]

render_written :
    (d : Desk) (s : String)
    → d.editor.shown ≡ some s
    → d.editor.seen_code ≡ s
    → d.editor.is_internal_change ≡ false
    → s ≢ d.code
    → IsQuiet (render d)
unfolding render
render_written d s shown seen flag ne =
    let m : str_eq s d.code ≡ false = neq s d.code ne in
    let n : str_eq d.code d.editor.seen_code ≡ false = rw seen (neq d.code s (λ e. ne (sym e))) in
    rw (n, flag, shown, m) (refl, refl)

quiet-InSync : (d : Desk) → IsQuiet d → InSync (render d)
quiet-InSync d q = render_same d q.0 (λ e. q.1)

InSync-IsQuiet : (d : Desk) → InSync d → IsQuiet d
InSync-IsQuiet d v = (v.shown, v.flag)

-- A typed text that differs from the one before it, from any editor that has seen the code.
pub typed-InSync :
    (d : Desk) (value : String)
    → d.editor.seen_code ≡ d.code
    → value ≢ d.code
    → InSync (change d (typed value))
unfolding change
typed-InSync d value seen fresh =
    let w = write (typed value) d in
    let s : InSync (render w) =
      render_same w refl (λ e. ground (arith, eq_iff value d.editor.seen_code, seen, fresh)) in
    quiet-InSync (render w) (InSync-IsQuiet (render w) s)

pub change-InSync : (d : Desk) (c : Change) → IsFresh d c → InSync d → InSync (change d c)
unfolding change
change-InSync d (typed value) fresh v = typed-InSync d value v.code fresh
change-InSync d (external code language) fresh v =
    let w = write (external code language) d in
    elim (Bool-cases (str_eq d.code code)) [
      | inl t ↦
          let e : d.code ≡ code = (eq_iff d.code code).0 t in
          let s : InSync (render w) = render_same w (v.shown ∙ ap some e) (λ h. v.flag) in
          quiet-InSync (render w) (InSync-IsQuiet (render w) s)
      | inr f ↦
          quiet-InSync (render w) (
            render_written w d.code v.shown v.code v.flag (λ e. ground (arith, eq_iff d.code code)))
    ]

-- From an editor that shows the parent's code, any sequence of typed texts, each different from the
-- one before it, and of codes and languages written from outside (a reset, another language, a
-- restored submission, a draft), each followed by its renders, leaves the editor showing the
-- parent's code.
pub change_all-InSync :
    (d : Desk) (cs : List Change) → AllFresh d cs → InSync d → InSync (change_all d cs)
unfolding change_all
change_all-InSync d [] f v = v
change_all-InSync d (c ∷ cs) (f, fs) v =
    change_all-InSync (change d c) cs fs (change-InSync d c f v)

render_still :
    (d : Desk) → d.editor.seen_code ≡ d.code → d.editor.seen_language ≡ d.language → render d ≡ d
unfolding render
render_still d c l = rw (c, l, eq_refl d.code, eq_refl d.language) refl

-- A change that was taken for typed is only noted.
abbrev noted : Desk → Desk
noted d = record d {
  editor = record d.editor {
    is_internal_change = false;
    seen_code = d.code;
    seen_language = d.language;
  };
}

render_flagged :
    (d : Desk)
    → d.editor.is_internal_change ≡ true
    → d.code ≢ d.editor.seen_code
    → render d ≡ noted d
unfolding render
render_flagged d flag ne = rw (neq d.code d.editor.seen_code ne, flag) refl

-- A change that leaves the text only raises the flag.
change_echo : (d : Desk) → InSync d → change d (typed d.code) ≡ write (typed d.code) d
unfolding change
change_echo d v =
    let w = write (typed d.code) d in
    let still : render w ≡ w = render_still w v.code v.language in ap render still ∙ still

change_flagged :
    (d : Desk) (code language : String)
    → d.editor.is_internal_change ≡ true
    → code ≢ d.editor.seen_code
    → change d (external code language) ≡ noted (write (external code language) d)
unfolding change
change_flagged d code language flag ne =
    let x = write (external code language) d in
    ap render (render_flagged x flag ne) ∙ render_still (noted x) refl refl

-- When the editor reports a change that leaves its text as it is, the next code that is written from
-- outside is not shown: the editor keeps the old text while the parent has the new code.
pub unchanged_hides_next :
    (d : Desk) (code language : String)
    → InSync d
    → code ≢ d.code
    → let d' = change (change d (typed d.code)) (external code language) in
      (d'.editor.shown ≡ some d.code) × (d'.code ≡ code)
unfolding write
unchanged_hides_next d code language v ne =
    let w = write (typed d.code) d in
    rw (change_echo d v, change_flagged w code language refl (λ e. ne (e ∙ v.code))) (refl, refl)
