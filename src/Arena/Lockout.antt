-- ===== src/Arena/Lockout.antt =====
-- Who the arena watches, and the clock of its lockout.
use campus_compile.Base.{
  ◌<◌, ◌≡◌, ◌≢◌, ◌↔◌, refl, Bool, true, false, Option, some, ◌⊎◌, inl, inr, List, [], ◌∷◌, String,
  arith, All, ℕ, ◌+◌, if◌then◌else◌,
}
use campus_compile.AntiCheat
use campus_compile.AntiCheat.Idle.{
  IsIdle, visibility-IsIdle, leave-IsIdle, enter-IsIdle, timeout-IsIdle, flush-IsIdle,
}
use campus_compile.Arena.{
  leave, enter, flush, timeout, on_visibility, elevated_role, Arena, Step, change, drop, check,
  hide, second, render, step, run, effects, initial_effect, enter_effect, lock_effect,
  handle_fullscreen_change, handle_visibility_change, force_check, tick, is_locked, is_prompted,
  enter_page,
}

-- The page of a visitor who is not watched.
abbrev IsFree : Arena → Type 0
IsFree a = (a.is_elevated ≡ true) × (a.tab_violations ≡ 0) × IsIdle a.telemetry

unwatched :
    (hidden : Bool) (now : ℕ) (a : Arena)
    → a.is_elevated ≡ true
    → handle_visibility_change hidden now a ≡ a
unfolding handle_visibility_change
unwatched hidden now a e = ground arith

visibility-IsFree :
    (hidden : Bool) (now : ℕ) (a : Arena) → IsFree a → IsFree (on_visibility hidden now a)
unfolding on_visibility
visibility-IsFree hidden now a (e, n, idle) =
    let a' = record a { telemetry = AntiCheat.handle_visibility_change hidden now a.telemetry } in
    rw (unwatched hidden now a' e) (e, n, visibility-IsIdle a.telemetry idle hidden now)

step-IsFree : (a : Arena) (s : Step) → IsFree a → IsFree (step a s)
unfolding step effects initial_effect enter_effect lock_effect handle_fullscreen_change force_check
    on_visibility handle_visibility_change tick is_locked
step-IsFree a (change full now) f = ground arith
step-IsFree a drop f = f
step-IsFree a (check now) f = ground arith
step-IsFree a (hide hidden now) f = visibility-IsFree hidden now a f
step-IsFree a (second now) f = ground arith
step-IsFree a (render now) f = ground arith
step-IsFree a (leave now) (e, n, idle) = (e, n, leave-IsIdle a.telemetry idle now)
step-IsFree a enter (e, n, idle) = (e, n, enter-IsIdle a.telemetry idle)
step-IsFree a (timeout i has_focus now) (e, n, idle) =
    (e, n, timeout-IsIdle a.telemetry idle i has_focus now)
step-IsFree a flush (e, n, idle) = (e, n, flush-IsIdle a.telemetry idle)

run-IsFree : (a : Arena) (steps : List Step) → IsFree a → IsFree (run a steps)
unfolding run
run-IsFree a [] f = f
run-IsFree a (s ∷ steps) f = run-IsFree (step a s) steps (step-IsFree a s f)

enter_page-IsFree :
    (role contest_id : Option String) (full : Bool)
    → (role ≡ some "admin") ⊎ (role ≡ some "professor")
    → IsFree (enter_page role contest_id full)
unfolding enter_page elevated_role
enter_page-IsFree role contest_id full (inl e) = rw e (refl, refl, (refl, refl, refl))
enter_page-IsFree role contest_id full (inr e) = rw e (refl, refl, (refl, refl, refl))

-- However an administrator or a professor enters a page with the secure arena, and whatever happens
-- to it, the mouse, the timers and the telemetry's daemon included: the page is not locked, counts no
-- violation, and its telemetry holds and posts nothing.
pub elevated_free :
    (role contest_id : Option String) (full : Bool) (steps : List Step)
    → (role ≡ some "admin") ⊎ (role ≡ some "professor")
    → let a = run (enter_page role contest_id full) steps in
      (is_locked a ≡ false)
      × (a.tab_violations ≡ 0)
      × (a.telemetry.event_buffer ≡ [])
      × (a.telemetry.posted ≡ [])
unfolding is_locked
elevated_free role contest_id full steps who =
    let (e, n, (_, held, posted)) =
      run-IsFree (enter_page role contest_id full) steps
        (enter_page-IsFree role contest_id full who) in
    (rw e refl, n, held, posted)

-- A step whose time is positive.
unfoldable pub IsTimed : Step → Type 0
IsTimed (change full now) = 0 < now
IsTimed drop = 0 < 1
IsTimed (check now) = 0 < now
IsTimed (hide hidden now) = 0 < now
IsTimed (second now) = 0 < now
IsTimed (render now) = 0 < now
IsTimed _ = 0 < 1

-- The clock runs exactly while the page is locked, and shows 0 otherwise; who has not entered is
-- not in full screen, if they are a student.
pub IsClocked : Arena → Type 0
IsClocked a =
    ((is_locked a ≡ true) ↔ (a.leave_time ≢ 0))
    × (is_locked a ≡ false → a.time_away ≡ 0)
    × (a.is_elevated ≡ false → a.is_fullscreen ≡ true → a.has_entered ≡ true)

step-IsClocked : (a : Arena) (s : Step) → IsTimed s → IsClocked a → IsClocked (step a s)
unfolding IsClocked IsTimed step effects initial_effect enter_effect lock_effect
    handle_fullscreen_change force_check on_visibility handle_visibility_change tick is_locked
step-IsClocked a (change full now) t v = ground arith
step-IsClocked a drop t v = v
step-IsClocked a (check now) t v = ground arith
step-IsClocked a (hide hidden now) t v = ground arith
step-IsClocked a (second now) t v = ground arith
step-IsClocked a (render now) t v = ground arith
step-IsClocked a (leave now) t v = v
step-IsClocked a enter t v = v
step-IsClocked a (timeout i has_focus now) t v = v
step-IsClocked a flush t v = v

run-IsClocked :
    (a : Arena) (steps : List Step) → All IsTimed steps → IsClocked a → IsClocked (run a steps)
unfolding run
run-IsClocked a [] t v = v
run-IsClocked a (s ∷ steps) (t, ts) v = run-IsClocked (step a s) steps ts (step-IsClocked a s t v)

enter_page-IsClocked :
    (role contest_id : Option String) (full : Bool) → IsClocked (enter_page role contest_id full)
unfolding IsClocked enter_page is_locked
enter_page-IsClocked role contest_id full = ground arith

-- However the page is entered, after any steps at positive times, the lockout's clock has a start
-- exactly when the page is locked, and the time away that the page counts is 0 when it is not.
pub lockout_clock :
    (role contest_id : Option String) (full : Bool) (steps : List Step)
    → All IsTimed steps
    → let a = run (enter_page role contest_id full) steps in
      ((is_locked a ≡ true) ↔ (a.leave_time ≢ 0)) × (is_locked a ≡ false → a.time_away ≡ 0)
unfolding IsClocked
lockout_clock role contest_id full steps t =
    let (c, z, _) =
      run-IsClocked (enter_page role contest_id full) steps t
        (enter_page-IsClocked role contest_id full) in
    (c, z)

-- A step other than a full screen that ends without its event.
abbrev pub IsReported : Step → Type 0
IsReported drop = ⊥
IsReported _ = Unit

-- What the hook takes for a full screen is one.
abbrev IsSeen : Arena → Type 0
IsSeen a = a.is_fullscreen ≡ true → a.document_fullscreen ≡ true

step-IsSeen : (a : Arena) (s : Step) → IsReported s → IsSeen a → IsSeen (step a s)
unfolding step effects initial_effect enter_effect lock_effect handle_fullscreen_change force_check
    on_visibility handle_visibility_change tick is_locked
step-IsSeen a (change full now) r v = ground arith
step-IsSeen a drop r v = elim r [ ]
step-IsSeen a (check now) r v = ground arith
step-IsSeen a (hide hidden now) r v = ground arith
step-IsSeen a (second now) r v = ground arith
step-IsSeen a (render now) r v = ground arith
step-IsSeen a (leave now) r v = v
step-IsSeen a enter r v = v
step-IsSeen a (timeout i has_focus now) r v = v
step-IsSeen a flush r v = v

run-IsSeen :
    (a : Arena) (steps : List Step) → All IsReported steps → IsSeen a → IsSeen (run a steps)
unfolding run
run-IsSeen a [] r v = v
run-IsSeen a (s ∷ steps) (r, rs) v = run-IsSeen (step a s) steps rs (step-IsSeen a s r v)

enter_page-IsSeen :
    (role contest_id : Option String) (full : Bool) → IsSeen (enter_page role contest_id full)
unfolding enter_page
enter_page-IsSeen role contest_id full h = ground arith

-- However the page is entered, after any steps at positive times: for a student exactly one of three
-- holds, the prompt to enter covers the page, the lockout covers it, or the hook takes it to be in
-- full screen, as it is unless a full screen ended without its event; for anyone else neither the
-- prompt nor the lockout is shown.
pub one_screen :
    (role contest_id : Option String) (full : Bool) (steps : List Step)
    → All IsTimed steps
    → let a = run (enter_page role contest_id full) steps in
      let count : Bool → ℕ = λ b. if b then 1 else 0 in
      (a.is_elevated ≡ false
        → count (is_prompted a) + count (is_locked a) + count a.is_fullscreen ≡ 1)
      × (All IsReported steps → a.is_fullscreen ≡ true → a.document_fullscreen ≡ true)
      × (a.is_elevated ≡ true → (is_prompted a ≡ false) × (is_locked a ≡ false))
unfolding IsClocked is_prompted is_locked
one_screen role contest_id full steps t =
    let a = run (enter_page role contest_id full) steps in
    let (_, _, entered) =
      run-IsClocked (enter_page role contest_id full) steps t
        (enter_page-IsClocked role contest_id full) in
    (
      λ e. ground arith,
      λ r.
          run-IsSeen (enter_page role contest_id full) steps r
            (enter_page-IsSeen role contest_id full),
      λ e. ground arith,
    )
