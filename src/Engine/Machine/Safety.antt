-- ===== src/Engine/Machine/Safety.antt =====
-- The engine's invariant.
use campus_compile.Base.{
  ℕ, zero, suc, ◌+◌, ◌<◌, ◌≡◌, refl, Bool, true, false, Option, some, List, [], ◌∷◌, String, str_eq,
  one_of, arith, length, get_elem?, if◌then◌else◌, Bool-cases, Option-cases, inl, inr,
}
use campus_compile.Engine.{
  Engine, Kind, submission, run_code, Stream, Message, handle_submit, handle_run_code, open_stream,
  reject, on_message, on_stream_error, close_current, settle, fetch_prev_history, fetch_problem,
  on_problem, fetch_next_history, on_history, show_verdict, fetch_history, load_draft, save_draft,
}
use campus_compile.Engine.Machine.{
  Event, submit, run, accepted, rejected, message, broken, edit, console, prev_history,
  next_history, history, mounted, problem, load, save, deliver, on_stream, step, run_events, opened,
  TailClosed, IsSafe,
}

pub opened-close_current : (ss : List Stream) → TailClosed ss → opened (close_current ss) ≡ 0
unfolding close_current
opened-close_current [] h = refl
opened-close_current (s ∷ ss) h = omega arith

TailClosed-close_current : (ss : List Stream) → TailClosed ss → TailClosed (close_current ss)
unfolding close_current
TailClosed-close_current [] h = tt
TailClosed-close_current (s ∷ ss) h = h

opened-pos :
    (ss : List Stream) (i : ℕ) (s : Stream)
    → get_elem? ss i ≡ some s
    → s.is_open ≡ true
    → 0 < opened ss
opened-pos [] i s e h = cc
opened-pos (t ∷ ss) zero s e h = ground arith
opened-pos (t ∷ ss) (suc i) s e h = omega (arith, opened-pos ss i s e h)

pub opened-delivered :
    (ss : List Stream) (i : ℕ) (s : Stream)
    → TailClosed ss
    → get_elem? ss i ≡ some s
    → s.is_open ≡ true
    → opened ss ≡ 1
opened-delivered [] i s h e o = cc
opened-delivered (t ∷ ss) i s h e o = ground (arith, opened-pos (t ∷ ss) i s e o)

settle-IsSafe : (e : Engine) → IsSafe e → opened e.streams ≡ 1 → IsSafe (settle e)
unfolding settle
settle-IsSafe e v one = record {
  under_way = ground (arith, opened-close_current e.streams v.current);
  current = TailClosed-close_current e.streams v.current;
}

click-IsSafe :
    (e : Engine)
    → IsSafe e
    → e.is_processing ≡ false
    → IsSafe (handle_submit e) × IsSafe (handle_run_code e)
unfolding handle_submit handle_run_code
click-IsSafe e v idle =
    let closed = opened-close_current e.streams v.current in
    let tail = TailClosed-close_current e.streams v.current in
    (
      record { under_way = ground arith; current = tail },
      record { under_way = ground arith; current = tail },
    )

-- The invariant reads three fields.
same-IsSafe :
    (e e' : Engine)
    → e'.pending ≡ e.pending
    → e'.streams ≡ e.streams
    → e'.is_processing ≡ e.is_processing
    → IsSafe e
    → IsSafe e'
same-IsSafe e e' p q r v = record { under_way = rw (p, q, r) v.under_way; current = rw q v.current }

pub show_verdict_same :
    (key : Option String) (m : Message) (e : Engine)
    → ((show_verdict key m e).pending ≡ e.pending)
      × ((show_verdict key m e).streams ≡ e.streams)
      × ((show_verdict key m e).is_processing ≡ e.is_processing)
unfolding show_verdict
show_verdict_same key m e = (ground arith, ground arith, ground arith)

show_verdict-IsSafe :
    (key : Option String) (m : Message) (e : Engine) → IsSafe e → IsSafe (show_verdict key m e)
show_verdict-IsSafe key m e v =
    let (p, q, r) = show_verdict_same key m e in same-IsSafe e (show_verdict key m e) p q r v

on_message-IsSafe :
    (kind : Kind) (m : Message) (e : Engine)
    → IsSafe e
    → opened e.streams ≡ 1
    → IsSafe (on_message kind m e)
unfolding on_message
on_message-IsSafe (submission key) m e v one =
    let e' = fetch_history 0 (record e { submit_status = m.status }) in
    let (p, q, r) = show_verdict_same key m e' in
    elim (Bool-cases (str_eq m.status "Running")) [
      | inl running ↦ rw running (same-IsSafe e _ refl refl refl v)
      | inr final ↦ rw final (
          settle-IsSafe (show_verdict key m e')
            (show_verdict-IsSafe key m e' (same-IsSafe e e' refl refl refl v)) (rw q one))
    ]
on_message-IsSafe run_code m e v one = elim (Bool-cases (str_eq m.status "Running")) [
  | inl running ↦ rw running (same-IsSafe e _ refl refl refl v)
  | inr other ↦
      elim (Bool-cases (one_of m.status ("Completed" ∷ "CE" ∷ "RE" ∷ "TLE" ∷ "SE" ∷ []))) [
        | inl final ↦ rw (other, final) (settle-IsSafe _ (same-IsSafe e _ refl refl refl v) one)
        | inr unknown ↦ rw (other, unknown) v
      ]
]

on_stream_error-IsSafe :
    (kind : Kind) (e : Engine) → IsSafe e → opened e.streams ≡ 1 → IsSafe (on_stream_error kind e)
unfolding on_stream_error
on_stream_error-IsSafe (submission key) e v one = settle-IsSafe e v one
on_stream_error-IsSafe run_code e v one = settle-IsSafe _ (same-IsSafe e _ refl refl refl v) one

on_stream-IsSafe :
    (f : Kind → Engine → Engine) (i : ℕ) (e : Engine)
    → ((kind : Kind) → opened e.streams ≡ 1 → IsSafe (f kind e))
    → IsSafe e
    → IsSafe (on_stream f i e)
unfolding on_stream
on_stream-IsSafe f i e keeps v = elim (Option-cases (get_elem? e.streams i)) [
  | inl missing ↦ rw (missing, on_stream) v
  | inr (s, found) ↦ elim (Bool-cases s.is_open) [
    | inl open_now ↦
        rw (found, on_stream, open_now)
          (keeps s.kind (opened-delivered e.streams i s v.current found open_now))
    | inr closed ↦ rw (found, on_stream, closed) v
  ]
]

-- The state in which an answer under way is taken up.
record IsAnswered (e : Engine) : Type 0 where
  none_left : length e.pending ≡ 0
  none_open : opened e.streams ≡ 0
  busy : e.is_processing ≡ true
  tail : TailClosed e.streams

open_stream-IsSafe : (kind : Kind) (e : Engine) → IsAnswered e → IsSafe (open_stream kind e)
unfolding open_stream
open_stream-IsSafe kind e a = record { under_way = ground arith; current = a.none_open }

reject-IsSafe :
    (reason : Option String) (status : Option ℕ) (kind : Kind) (e : Engine)
    → IsAnswered e
    → IsSafe (reject kind reason status e)
unfolding reject
reject-IsSafe reason status (submission key) e a = record {
  under_way = ground arith;
  current = a.tail;
}
reject-IsSafe reason status run_code e a = record { under_way = ground arith; current = a.tail }

answered :
    (ps : List Kind) (n : ℕ) (b : Bool) (kind : Kind)
    → length (kind ∷ ps) + n ≡ (if b then 1 else 0)
    → (length ps ≡ 0) × (n ≡ 0) × (b ≡ true)
answered ps n b kind h = (ground arith, ground arith, ground arith)

deliver-IsSafe :
    (f : Kind → Engine → Engine) (e : Engine)
    → ((kind : Kind) (e' : Engine) → IsAnswered e' → IsSafe (f kind e'))
    → (ps : List Kind) → e.pending ≡ ps
    → IsSafe e
    → IsSafe (deliver f e)
unfolding deliver
deliver-IsSafe f e keeps [] none_pending v = rw (none_pending, deliver) v
deliver-IsSafe f e keeps (kind ∷ rest) some_pending v =
    let (left, closed, busy) =
      answered rest (opened e.streams) e.is_processing kind (simp some_pending at v.under_way) in
    rw (some_pending, deliver)
      (keeps kind (record e { pending = rest })
        (record { none_left = left; none_open = closed; busy = busy; tail = v.current }))

-- Every event keeps the invariant.
pub step-IsSafe : (e : Engine) (ev : Event) → IsSafe e → IsSafe (step e ev)
unfolding step fetch_prev_history fetch_next_history on_history fetch_problem on_problem load_draft
    save_draft
step-IsSafe e submit v = elim (Bool-cases e.is_processing) [
  | inl busy ↦ simp busy v
  | inr idle ↦ simp idle (click-IsSafe e v idle).0
]
step-IsSafe e run v = elim (Bool-cases e.is_processing) [
  | inl busy ↦ simp busy v
  | inr idle ↦ simp idle (click-IsSafe e v idle).1
]
step-IsSafe e accepted v = deliver-IsSafe open_stream e open_stream-IsSafe e.pending refl v
step-IsSafe e (rejected reason status) v =
    deliver-IsSafe _ e (reject-IsSafe reason status) e.pending refl v
step-IsSafe e (message i m) v =
    on_stream-IsSafe (λ kind. on_message kind m) i e (λ kind one. on_message-IsSafe kind m e v one)
      v
step-IsSafe e (broken i) v =
    on_stream-IsSafe on_stream_error i e (λ kind one. on_stream_error-IsSafe kind e v one) v
step-IsSafe e (edit code language) v = same-IsSafe e _ refl refl refl v
step-IsSafe e (console is_open tab input) v = same-IsSafe e _ refl refl refl v
step-IsSafe e prev_history v = same-IsSafe e _ (ground arith) (ground arith) (ground arith) v
step-IsSafe e next_history v = same-IsSafe e _ (ground arith) (ground arith) (ground arith) v
step-IsSafe e (history offset rows) v = same-IsSafe e _ refl refl refl v
step-IsSafe e mounted v = same-IsSafe e _ (ground arith) (ground arith) (ground arith) v
step-IsSafe e (problem d) v = same-IsSafe e _ refl refl refl v
step-IsSafe e load v = same-IsSafe e _ (ground arith) (ground arith) (ground arith) v
step-IsSafe e save v = same-IsSafe e _ (ground arith) (ground arith) (ground arith) v

-- Whatever the order of clicks, answers and stream events, from a state where the engine is idle
-- with all streams closed: exactly one POST or open stream is under way while `isProcessing`, none
-- otherwise, and no stream but the current one is open.
pub run_events-IsSafe : (e : Engine) (evs : List Event) → IsSafe e → IsSafe (run_events e evs)
unfolding run_events
run_events-IsSafe e [] v = v
run_events-IsSafe e (ev ∷ evs) v = run_events-IsSafe (step e ev) evs (step-IsSafe e ev v)
