-- ===== src/ContestArena/Watch.antt =====
-- What one switch of the tab reports.
use campus_compile.Base.{
  ℕ, ◌+◌, Bool, true, false, List, [], ◌∷◌, ◌++◌, String, ◌≡◌, refl, ap, ◌∙◌, ◌&&◌, arith, str_eq,
  length, keep_if, if◌then◌else◌, is_some, length-append,
}
use campus_compile.AntiCheat
use campus_compile.AntiCheat.{Hook, Event, dispatch_telemetry, is_active}
use campus_compile.Arena
use campus_compile.ContestArena.{Room, handle_visibility_change}

-- The held events of a type.
abbrev pub held : String → Hook → ℕ
held event_type h = length (keep_if (λ (e : Event). str_eq e.event_type event_type) h.event_buffer)

keep_if-append :
    (p : Event → Bool) (xs ys : List Event) → keep_if p (xs ++ ys) ≡ keep_if p xs ++ keep_if p ys
keep_if-append p [] ys = refl
keep_if-append p (x ∷ xs) ys = ground (arith, keep_if-append p xs ys)

held-dispatch_telemetry :
    (t event_type : String) (m : AntiCheat.Metadata) (now : ℕ) (h : Hook)
    → is_active h ≡ true
    → held t (dispatch_telemetry event_type m now h)
      ≡ held t h + (if str_eq event_type t then 1 else 0)
unfolding dispatch_telemetry
held-dispatch_telemetry t event_type m now h active =
    let p : Event → Bool = λ e. str_eq e.event_type t in
    let e : Event = record { event_type = event_type; metadata = m; timestamp = now } in
    rw
      (
        active,
        keep_if-append p h.event_buffer (e ∷ []),
        length-append (keep_if p h.event_buffer) (keep_if p (e ∷ [])),
      )
      (ground arith)

kept_active :
    (event_type : String) (m : AntiCheat.Metadata) (now : ℕ) (h : Hook)
    → is_active h ≡ true
    → is_active (dispatch_telemetry event_type m now h) ≡ true
unfolding dispatch_telemetry
kept_active event_type m now h active = rw active active

blur_sent :
    (now : ℕ) (h : Hook)
    → is_active h ≡ true
    → AntiCheat.handle_visibility_change true now h
      ≡ dispatch_telemetry "blur" (AntiCheat.at now) now h
unfolding AntiCheat.handle_visibility_change
blur_sent now h active =
    let here : (h.is_contest && true) ≡ true = ground arith in
    ap (λ b. if b then dispatch_telemetry "blur" (AntiCheat.at now) now h else h) here

-- The hook's own listener.
hook_blurs :
    (t : String) (now : ℕ) (h : Hook)
    → is_active h ≡ true
    → let h' = AntiCheat.handle_visibility_change true now h in
      (is_active h' ≡ true) × (held t h' ≡ held t h + (if str_eq "blur" t then 1 else 0))
hook_blurs t now h active = rw (blur_sent now h active) (
  kept_active "blur" (AntiCheat.at now) now h active,
  held-dispatch_telemetry t "blur" (AntiCheat.at now) now h active,
)

-- A switch away from the tab of a student who has entered, in a contest and with the problem on the
-- page, is reported three times: as a blur by the arena's hook, as a blur by the editor's hook, and
-- as a suspected spoof by the arena.
pub switch_reports :
    (now : ℕ) (r : Room)
    → is_active r.arena.telemetry ≡ true
    → is_active r.editor_hook ≡ true
    → r.arena.is_elevated ≡ false
    → r.arena.has_entered ≡ true
    → is_some r.page.engine.problem ≡ true
    → let r' = handle_visibility_change true now r in
      (held "blur" r'.arena.telemetry ≡ held "blur" r.arena.telemetry + 1)
      × (held "blur" r'.editor_hook ≡ held "blur" r.editor_hook + 1)
      × (held "visibility_spoof_suspected" r'.arena.telemetry
          ≡ held "visibility_spoof_suspected" r.arena.telemetry + 1)
unfolding handle_visibility_change Arena.handle_visibility_change
switch_reports now r active active' student entered found =
    let h = AntiCheat.handle_visibility_change true now r.arena.telemetry in
    let (on, blurs) = hook_blurs "blur" now r.arena.telemetry active in
    let (_, spoofs) = hook_blurs "visibility_spoof_suspected" now r.arena.telemetry active in
    let warned = AntiCheat.warning "focus_lost" (r.arena.tab_violations + 1) in
    let e : String = "visibility_spoof_suspected" in
    let none_more : (n : ℕ) → n + 0 ≡ n = λ n. omega arith in
    rw (student, entered, found)
      (
        held-dispatch_telemetry "blur" e warned now h on ∙ none_more _ ∙ blurs,
        (hook_blurs "blur" now r.editor_hook active').1,
        held-dispatch_telemetry e e warned now h on ∙ ap (λ n. n + 1) (spoofs ∙ none_more _),
      )
