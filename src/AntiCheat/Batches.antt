-- ===== src/AntiCheat/Batches.antt =====
-- What the telemetry posts and what it holds back, over any sequence of the hook's handlers.
use mathlib.Core.List.{append_assoc, append-nil}
use campus_compile.Base.{
  ℕ, ◌≤◌, ◌≡◌, refl, ap, sym, ◌∙◌, Bool, true, false, ◌&&◌, List, [], ◌∷◌, ◌++◌, String, arith,
  length, ltb, if◌then◌else◌, Bool-cases, inl, inr, length-append, ◌==◌, some,
}
use campus_compile.AntiCheat.{
  Hook, Event, Metadata, is_active, dispatch_telemetry, flush_telemetry, handle_visibility_change,
  handle_mouse_leave, handle_mouse_enter, unmount, mouse_timeout, is_due, clear_timer,
  log_paste_attempt, log_keystroke, push_key, is_suspect, report, at, duration_out,
}

-- Every call that can reach the hook.
pub data Action : Type 0 where
  dispatch : String → Metadata → ℕ → Action
  flush unmounted : Action
  visibility : Bool → ℕ → Action
  leave : ℕ → Action
  enter : Action
  timeout : ℕ → Bool → ℕ → Action
  paste : ℕ → Action
  key : ℕ → Action

pub act : Action → Hook → Hook
act (dispatch event_type metadata now) h = dispatch_telemetry event_type metadata now h
act flush h = flush_telemetry h
act unmounted h = unmount h
act (visibility hidden now) h = handle_visibility_change hidden now h
act (leave now) h = handle_mouse_leave now h
act enter h = handle_mouse_enter h
act (timeout i has_focus now) h = mouse_timeout i has_focus now h
act (paste now) h = log_paste_attempt now h
act (key now) h = log_keystroke now h

pub run : List Action → Hook → Hook
run [] h = h
run (a ∷ actions) h = run actions (act a h)

-- The events of the posted batches, in the order in which they were posted.
pub sent : List (List Event) → List Event
sent [] = []
sent (b ∷ bs) = sent bs ++ b

pub recorded : Hook → List Event
recorded h = sent h.posted ++ h.event_buffer

-- `b` is `a` with at most `n` events more.
Extends : ℕ → List Event → List Event → Type 0
Extends n a b = (es : List Event) × (b ≡ a ++ es) × (length es ≤ n)

dispatch-recorded :
    (event_type : String) (metadata : Metadata) (now : ℕ) (h : Hook)
    → Extends 1 (recorded h) (recorded (dispatch_telemetry event_type metadata now h))
unfolding dispatch_telemetry recorded Extends
dispatch-recorded event_type metadata now h = elim (Bool-cases (is_active h)) [
  | inl t ↦
      let es : List Event =
        record { event_type = event_type; metadata = metadata; timestamp = now } ∷ [] in
      rw t (es, sym (append_assoc (sent h.posted) h.event_buffer es), omega arith)
  | inr f ↦ rw f ([], sym (append-nil _), omega arith)
]

flush-recorded : (h : Hook) → recorded (flush_telemetry h) ≡ recorded h
unfolding flush_telemetry recorded sent
flush-recorded h = elim (Bool-cases (is_active h && ltb 0 (length h.event_buffer))) [
  | inl t ↦ rw t (append-nil _)
  | inr f ↦ rw f refl
]

kept : (h : Hook) → Extends 1 (recorded h) (recorded h)
unfolding Extends
kept h = ([], sym (append-nil _), omega arith)

branch :
    (c t : Bool) (a : List Event) (x y z : Hook)
    → Extends 1 a (recorded x)
    → Extends 1 a (recorded y)
    → Extends 1 a (recorded z)
    → Extends 1 a (recorded (if c then if t then x else y else z))
branch true true a x y z p q r = p
branch true false a x y z p q r = q
branch false t a x y z p q r = r

keystroke-recorded : (now : ℕ) (h : Hook) → Extends 1 (recorded h) (recorded (log_keystroke now h))
unfolding log_keystroke recorded
keystroke-recorded now h =
    let keys = push_key now h.key_buffer in
    let h' = record h { key_buffer = keys } in
    let caught = dispatch_telemetry "autotyper_suspected" (report now keys) now h' in
    branch h.is_contest (length keys == 50 && is_suspect now keys) (recorded h)
      (record caught { key_buffer = [] }) h' h
      (dispatch-recorded "autotyper_suspected" (report now keys) now h') (kept h) (kept h)

enter-recorded : (h : Hook) → Extends 1 (recorded h) (recorded (handle_mouse_enter h))
unfolding handle_mouse_enter recorded
enter-recorded h = elim (Bool-cases h.is_contest) [ inl t ↦ rw t (kept h) | inr f ↦ rw f (kept h) ]

act-recorded : (a : Action) (h : Hook) → Extends 1 (recorded h) (recorded (act a h))
unfolding act
act-recorded (dispatch event_type metadata now) h = dispatch-recorded event_type metadata now h
act-recorded flush h = rw (flush-recorded h) (kept h)
act-recorded unmounted h =
    unfold unmount in rw (flush-recorded h) at (enter-recorded (flush_telemetry h))
act-recorded (visibility hidden now) h =
    unfold handle_visibility_change in
    elim (Bool-cases (h.is_contest && hidden)) [
      | inl t ↦ rw t (dispatch-recorded "blur" (at now) now h)
      | inr f ↦ rw f (kept h)
    ]
act-recorded (leave now) h =
    unfold handle_mouse_leave recorded in
    elim (Bool-cases h.is_contest) [ inl t ↦ rw t (kept h) | inr f ↦ rw f (kept h) ]
act-recorded enter h = enter-recorded h
act-recorded (timeout i has_focus now) h =
    unfold mouse_timeout recorded in
    let h' = record h { timers = clear_timer (some i) h.timers } in
    branch (is_due now i h.timers) has_focus (recorded h)
      (dispatch_telemetry "visibility_spoof_suspected" (duration_out 45000) now h') h' h
      (dispatch-recorded "visibility_spoof_suspected" (duration_out 45000) now h') (kept h) (kept h)
act-recorded (key now) h = keystroke-recorded now h
act-recorded (paste now) h =
    unfold log_paste_attempt in dispatch-recorded "paste_attempt" (at now) now h

-- The events posted and held, in the order of their occurrence, only ever grow at the end, over any
-- sequence of the handlers' calls, and by at most one for each call: none is lost by the hook,
-- posted twice or moved.
pub run-recorded :
    (actions : List Action) (h : Hook)
    → (es : List Event) × (recorded (run actions h) ≡ recorded h ++ es)
      × (length es ≤ length actions)
unfolding run Extends
run-recorded [] h = ([], sym (append-nil _), omega arith)
run-recorded (a ∷ actions) h =
    let (es, e, n) = act-recorded a h in
    let (fs, f, m) = run-recorded actions (act a h) in
    (
      es ++ fs,
      f ∙ ap (◌++ fs) e ∙ append_assoc (recorded h) es fs,
      rw (length-append es fs) (omega arith),
    )
