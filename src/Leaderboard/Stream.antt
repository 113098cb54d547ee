-- ===== src/Leaderboard/Stream.antt =====
-- When the leaderboard's event source is open, and what a final audit means.
use campus_compile.Base.{
  true, false, Option, none, some, List, [], ◌∷◌, ◌≡◌, ◌≢◌, refl, ◌∙◌, String, arith, or_default,
}
use campus_compile.Leaderboard.{
  streaming, Leaderboard, Event, answer, message, open_event, error_event, leave, mount, on_answer,
  on_message, cleanup, step, run, status_of, is_final,
}

-- An open source belongs to a page that is shown, has its answer, and whose audit is not final.
pub IsLive : {A : Type 0} → Leaderboard A → Type 0
IsLive s =
    s.source ≡ streaming
    → (s.is_mounted ≡ true) × (is_final s.audit ≡ false) × (s.is_waiting ≡ false)

status-final : (o : Option String) → is_final (or_default o "") ≡ is_final (status_of o)
unfolding status_of
status-final none = refl
status-final (some String.[]) = refl
status-final (some (String.◌∷◌ c s)) = refl

step-IsLive : {A : Type 0} (s : Leaderboard A) (e : Event A) → IsLive s → IsLive (step s e)
unfolding IsLive step on_answer on_message cleanup
step-IsLive s (answer none) v = ground arith
step-IsLive s (answer (some standing)) v = ground arith
step-IsLive s (message none) v = ground arith
step-IsLive s (message (some standing)) v = ground (arith, status-final standing.audit_status)
step-IsLive s open_event v = ground arith
step-IsLive s error_event v = ground arith
step-IsLive s leave v = ground arith

pub run-IsLive :
    {A : Type 0} (s : Leaderboard A) (events : List (Event A)) → IsLive s → IsLive (run s events)
unfolding run
run-IsLive s [] v = v
run-IsLive s (e ∷ events) v = run-IsLive (step s e) events (step-IsLive s e v)

mount-IsLive : (A : Type 0) (token : Option String) → IsLive (mount {A = A} token)
unfolding mount IsLive
mount-IsLive A token = λ e. ground arith

-- After any events on a page that was mounted with any token, an open event source means that the
-- page is still shown, its request is answered and the audit that it shows is not final. So it is
-- closed or never opened after the page is left, and from a final audit on.
pub open_source :
    {A : Type 0} (token : Option String) (events : List (Event A))
    → (run (mount token) events).source ≡ streaming
    → let s = run (mount token) events in
      (s.is_mounted ≡ true) × (is_final s.audit ≡ false) × (s.is_waiting ≡ false)
unfolding IsLive
open_source token events = run-IsLive (mount token) events (mount-IsLive _ token)

step_closed :
    {A : Type 0} (s : Leaderboard A) (e : Event A)
    → s.source ≢ streaming
    → s.is_waiting ≡ false
    → let s' = step s e in
      (s'.rows ≡ s.rows) × (s'.audit ≡ s.audit) × (s'.source ≢ streaming) × (s'.is_waiting ≡ false)
unfolding step on_answer on_message cleanup
step_closed s (answer a) c w = ground arith
step_closed s (message m) c w = ground arith
step_closed s open_event c w = ground arith
step_closed s error_event c w = ground arith
step_closed s leave c w = ground arith

run_closed :
    {A : Type 0} (s : Leaderboard A) (events : List (Event A))
    → s.source ≢ streaming
    → s.is_waiting ≡ false
    → ((run s events).rows ≡ s.rows) × ((run s events).audit ≡ s.audit)
unfolding run
run_closed s [] c w = (refl, refl)
run_closed s (e ∷ events) c w =
    let (r, a, c', w') = step_closed s e c w in
    let (r', a') = run_closed (step s e) events c' w' in (r' ∙ r, a' ∙ a)

-- Once a page that was mounted with any token and has its answer shows a final audit, no further
-- events change the standings or the audit.
pub final_standings :
    {A : Type 0} (token : Option String) (before after : List (Event A))
    → (run (mount token) before).is_waiting ≡ false
    → is_final (run (mount token) before).audit ≡ true
    → let s = run (mount token) before in
      ((run s after).rows ≡ s.rows) × ((run s after).audit ≡ s.audit)
final_standings token before after w f =
    let s = run (mount token) before in
    let c : s.source ≢ streaming =
      λ e. let (m, n, k) = open_source token before e in ground arith in
    run_closed s after c w
