-- ===== src/Workbench/Settled.antt =====
-- The editor of a page that has settled: it shows the code and has seen it.
use text.Mathlib.TextEquality.{eq_iff}
use campus_compile.Base.{
  true, false, ◌&&◌, none, some, String, ◌≡◌, ◌≢◌, ◌⊎◌, inl, inr, refl, arith, Bool-cases, is_some,
  str_eq,
}
use campus_compile.CodeEditor
use campus_compile.CodeEditor.{CodeEditor}
use campus_compile.CodeEditor.Sync.{Desk, external, change, render, InSync, change-InSync, write}
use campus_compile.Workbench.{Page, in_editor, mount, Act, click, event, rerender}

-- The editor has seen the code and the language, takes no change for typed, and, once it is
-- mounted, shows the code.
abbrev pub Attuned : CodeEditor → String → String → Type 0
Attuned e code language =
    (e.seen_code ≡ code)
    × (e.seen_language ≡ language)
    × (e.is_internal_change ≡ false)
    × ((e.shown ≡ none) ⊎ (e.shown ≡ some code))

abbrev pub IsSynced : Page → Type 0
IsSynced p = is_some p.engine.problem ≡ true → Attuned p.editor p.engine.code p.engine.language

-- A typed text differs from the code; Monaco mounts with the code.
abbrev pub IsFresh : Page → Act → Type 0
IsFresh p (click (in_editor (CodeEditor.typed value))) = value ≢ p.engine.code
IsFresh p (event (mount has_node has_textarea text)) = text ≡ p.engine.code
IsFresh p _ = Unit

pub attuned : (d : Desk) → InSync d → Attuned d.editor d.code d.language
attuned d v = (v.code, v.language, v.flag, inr v.shown)

render_unmounted :
    (d : Desk)
    → d.editor.is_internal_change ≡ false
    → d.editor.shown ≡ none
    → Attuned (render d).editor (render d).code (render d).language
      × ((render d).editor.shown ≡ none)
unfolding render
render_unmounted d flag shown =
    elim (Bool-cases
      (str_eq d.code d.editor.seen_code && str_eq d.language d.editor.seen_language)) [
        | inl t ↦ rw t (
          (
            ground (arith, eq_iff d.code d.editor.seen_code),
            ground (arith, eq_iff d.language d.editor.seen_language),
            flag,
            inl shown,
          ),
          shown,
        )
        | inr f ↦ rw (f, flag, shown) ((refl, refl, refl, inl refl), refl)
      ]

-- Whatever code and language are written, the renders attune the editor to them.
external-Attuned :
    (e : CodeEditor) (code language code' language' : String)
    → Attuned e code language
    → let d = render (render (record { code = code'; language = language'; editor = e })) in
      Attuned d.editor d.code d.language
unfolding change write
external-Attuned e code language code' language' (c, l, f, inl n) =
    let d : Desk = record { code = code'; language = language'; editor = e } in
    let (a, s) = render_unmounted d f n in (render_unmounted (render d) a.2 s).0
external-Attuned e code language code' language' (c, l, f, inr s) =
    let d : Desk = record { code = code; language = language; editor = e } in
    let v : InSync d = record { shown = s; flag = f; code = c; language = l } in
    attuned (change d (external code' language')) (change-InSync d (external code' language') tt v)

pub settled :
    (p : Page) (code language : String)
    → (is_some p.engine.problem ≡ true → Attuned p.editor code language)
    → IsSynced (rerender p)
unfolding rerender
settled p code language v = elim (Bool-cases (is_some p.engine.problem)) [
  | inl found ↦
      rw found
        (λ e. external-Attuned p.editor code language p.engine.code p.engine.language (v found))
  | inr missing ↦ rw missing (λ e. cc)
]
