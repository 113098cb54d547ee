-- ===== src/Engine/Verdicts.antt =====
-- The end of a submission, and a page that is left while its request is under way.
use text.Mathlib.TextEquality.{eq_iff}
use campus_compile.Base.{
  ℕ, Bool, true, false, Option, some, List, [], ◌∷◌, String, ◌≡◌, refl, arith, str_eq, one_of,
  get_elem?, All, map, ◌∙◌, Option-cases, Bool-cases, inl, inr, if◌then◌else◌,
}
use campus_compile.Engine.{
  Engine, Kind, submission, run_code, Stream, Message, get_history, on_message, show_verdict,
  fetch_history, remove_draft, unmount, open_stream, on_stream_error, settle, close_current,
}
use campus_compile.Engine.Machine.{
  Event, broken, run_events, step, message, accepted, opened, IsSafe, on_stream, deliver,
}
use campus_compile.Engine.Machine.Safety.{opened-close_current, show_verdict_same}

abbrev pub is_accepted : String → Bool
is_accepted status = one_of status ("AC" ∷ "Accepted" ∷ [])

show_verdict_parts :
    (key : Option String) (m : Message) (e : Engine)
    → ((show_verdict key m e).submit_status ≡ e.submit_status)
      × ((show_verdict key m e).sent ≡ e.sent)
      × ((show_verdict key m e).drafts
          ≡ (if is_accepted m.status then remove_draft key e.drafts else e.drafts))
unfolding show_verdict
show_verdict_parts key m e = (
  ground arith,
  ground arith,
  ground (
    arith,
    eq_iff m.status "CE",
    eq_iff m.status "RE",
    eq_iff m.status "WA",
    eq_iff m.status "TLE",
    eq_iff m.status "SE",
    eq_iff m.status "AC",
    eq_iff m.status "Accepted",
    eq_iff "CE" "AC",
    eq_iff "RE" "AC",
    eq_iff "WA" "AC",
    eq_iff "TLE" "AC",
    eq_iff "SE" "AC",
    eq_iff "CE" "Accepted",
    eq_iff "RE" "Accepted",
    eq_iff "WA" "Accepted",
    eq_iff "TLE" "Accepted",
    eq_iff "SE" "Accepted",
  ),
)

step-message :
    (e : Engine) (i : ℕ) (s : Stream) (kind : Kind) (m : Message)
    → get_elem? e.streams i ≡ some s
    → s.is_open ≡ true
    → s.kind ≡ kind
    → step e (message i m) ≡ on_message kind m e
unfolding step on_stream
step-message e i s kind m found open_now k = ground arith

verdict_ends :
    (e : Engine) (key : Option String) (m : Message)
    → IsSafe e
    → str_eq m.status "Running" ≡ false
    → let e' = on_message (submission key) m e in
      (e'.is_processing ≡ false)
      × (opened e'.streams ≡ 0)
      × (e'.submit_status ≡ m.status)
      × (e'.sent ≡ get_history 0 ∷ e.sent)
      × (e'.drafts ≡ (if is_accepted m.status then remove_draft key e.drafts else e.drafts))
unfolding on_message
verdict_ends e key m v final =
    let e' = fetch_history 0 (record e { submit_status = m.status }) in
    let (p, q, r) = show_verdict_same key m e' in
    let (status, sent, drafts) = show_verdict_parts key m e' in
    rw final (refl, rw q (opened-close_current e.streams v.current), status, sent, drafts)

-- Any message but "Running" on an open submission stream ends the submission: the buttons work
-- again, no stream is open, the verdict is shown, the history is asked for from its first page, and
-- the draft goes exactly when the verdict is "AC" or "Accepted".
pub verdict_outcome :
    (e : Engine) (i : ℕ) (s : Stream) (key : Option String) (m : Message)
    → IsSafe e
    → get_elem? e.streams i ≡ some s
    → s.is_open ≡ true
    → s.kind ≡ submission key
    → str_eq m.status "Running" ≡ false
    → let e' = step e (message i m) in
      (e'.is_processing ≡ false)
      × (opened e'.streams ≡ 0)
      × (e'.submit_status ≡ m.status)
      × (e'.sent ≡ get_history 0 ∷ e.sent)
      × (e'.drafts ≡ (if is_accepted m.status then remove_draft key e.drafts else e.drafts))
verdict_outcome e i s key m v found open_now kind final =
    rw (step-message e i s (submission key) m found open_now kind) (verdict_ends e key m v final)

-- Messages to streams, and one that says that its run is under way.
abbrev pub messages : List (ℕ × Message) → List Event
messages ms = map (λ p. message p.0 p.1) ms

abbrev pub IsRunning : ℕ × Message → Type 0
IsRunning (i, m) = str_eq m.status "Running" ≡ true

on_message-running :
    (kind : Kind) (m : Message) (e : Engine)
    → str_eq m.status "Running" ≡ true
    → (on_message kind m e).streams ≡ e.streams
unfolding on_message
on_message-running (submission key) m e r = rw r refl
on_message-running run_code m e r = rw r refl

running-streams :
    (e : Engine) (i : ℕ) (m : Message)
    → str_eq m.status "Running" ≡ true
    → (step e (message i m)).streams ≡ e.streams
unfolding step on_stream
running-streams e i m r = elim (Option-cases (get_elem? e.streams i)) [
  | inl missing ↦ rw (missing, on_stream) refl
  | inr (s, found) ↦ elim (Bool-cases s.is_open) [
    | inl open_now ↦ rw (found, on_stream, open_now) (on_message-running s.kind m e r)
    | inr closed ↦ rw (found, on_stream, closed) refl
  ]
]

run_events-running :
    (e : Engine) (ms : List (ℕ × Message))
    → All IsRunning ms
    → (run_events e (messages ms)).streams ≡ e.streams
unfolding run_events
run_events-running e [] r = refl
run_events-running e ((i, m) ∷ ms) (r, rs) =
    run_events-running (step e (message i m)) ms rs ∙ running-streams e i m r

error-streams :
    (kind : Kind) (e : Engine) → (on_stream_error kind e).streams ≡ close_current e.streams
unfolding on_stream_error settle
error-streams (submission key) e = refl
error-streams run_code e = refl

broken-streams :
    (e : Engine) (kind : Kind) (ss : List Stream)
    → e.streams ≡ record { kind = kind; is_open = true } ∷ ss
    → (step e (broken 0)).streams ≡ record { kind = kind; is_open = false } ∷ ss
unfolding step on_stream close_current
broken-streams e kind ss held = ground (arith, held, error-streams kind e)

-- When a page is left while its request is under way, the answer that comes later opens a stream,
-- which stays open through any messages that its run is under way; an error of its own closes it.
pub unmount-accepted :
    (e : Engine) (kind : Kind) (rest : List Kind) (ms : List (ℕ × Message))
    → IsSafe e
    → e.pending ≡ kind ∷ rest
    → All IsRunning ms
    → let left = run_events (step (unmount e) accepted) (messages ms) in
      (opened left.streams ≡ 1) × (opened (step left (broken 0)).streams ≡ 0)
unfolding step deliver open_stream unmount
unmount-accepted e kind rest ms v under_way running =
    let closed = opened-close_current e.streams v.current in
    let left = run_events (step (unmount e) accepted) (messages ms) in
    let held : left.streams ≡ record { kind = kind; is_open = true } ∷ close_current e.streams =
      run_events-running (step (unmount e) accepted) ms running ∙ ground arith in
    (
      rw held (ground arith),
      rw (broken-streams left kind (close_current e.streams) held) (omega arith),
    )
