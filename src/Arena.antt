-- ===== src/Arena.antt =====
-- The secure arena: frontend/src/hooks/useSecureArena.js, and the lockout effects of
-- frontend/src/pages/Contest/ContestArenaLayout.jsx, which pages/Arena/ContestArena.jsx repeats. The
-- state has the hook's and the page's variables, the browser's own full-screen flag and the telemetry
-- hook. Times are in milliseconds; 0 is the null of `leaveTimeRef`.
pub mod Lockout
use mathlib.Core.Bool.{cond}
use campus_compile.Base.{
  ℕ, ◌+◌, ◌-◌, ◌/◌, Bool, true, false, not, ◌&&◌, ◌||◌, Option, none, some, List, [], ◌∷◌, String,
  str_eq, ◌==◌, if◌then◌else◌,
}
use campus_compile.AntiCheat
use campus_compile.AntiCheat.{Hook, Metadata, Event, action, warning, dispatch_telemetry}

pub record Arena : Type 0 where
  pub is_elevated : Bool
  pub has_entered : Bool
  pub is_fullscreen : Bool
  pub document_fullscreen : Bool
  pub tab_violations : ℕ
  pub leave_time : ℕ
  pub time_away : ℕ
  pub telemetry : Hook

-- `currentUser?.role === 'admin' || currentUser?.role === 'professor'`.
unfoldable pub elevated_role : Option String → Bool
elevated_role none = false
elevated_role (some role) = str_eq role "admin" || str_eq role "professor"

-- The first render, in the browser's full-screen state.
unfoldable pub enter_page : Option String → Option String → Bool → Arena
unfolding elevated_role
enter_page role contest_id full = record {
  is_elevated = elevated_role role;
  has_entered = false;
  is_fullscreen = false;
  document_fullscreen = full;
  tab_violations = 0;
  leave_time = 0;
  time_away = 0;
  telemetry = record {
    contest_id = contest_id;
    is_contest = not (elevated_role role);
    key_buffer = [];
    mouse_leave_timer = none;
    timers = [];
    event_buffer = [];
    posted = [];
  };
}

-- The page's first effect: a student who is in full screen has entered.
unfoldable pub enter_effect : Arena → Arena
enter_effect a =
    if not a.is_elevated && (a.is_fullscreen && not a.has_entered)
    then record a { has_entered = true }
    else a

-- The page's second effect: the clock starts when full screen is left, and full screen resets it.
unfoldable pub lock_effect : ℕ → Arena → Arena
lock_effect now a =
    if not a.is_elevated && a.has_entered
    then if not a.is_fullscreen
      then record a { leave_time = if a.leave_time == 0 then now else a.leave_time }
      else record a { leave_time = 0; time_away = 0 }
    else a

-- The hook's check of the browser when its effect runs.
unfoldable pub initial_effect : Arena → Arena
initial_effect a = if a.document_fullscreen then record a { is_fullscreen = true } else a

-- The effects that a render runs.
unfoldable pub effects : ℕ → Arena → Arena
unfolding initial_effect enter_effect lock_effect
effects now a = lock_effect now (enter_effect (initial_effect a))

unfoldable pub handle_fullscreen_change : Bool → ℕ → Arena → Arena
unfolding dispatch_telemetry
handle_fullscreen_change full now a =
    let a' = record a { document_fullscreen = full; is_fullscreen = full } in
    if not full && (not a.is_elevated && a.has_entered)
    then record a' {
      telemetry = dispatch_telemetry "fullscreen_dropped" (action "exited_early") now a.telemetry;
    }
    else a'

-- The hook's interval of five seconds, which runs for a student in full screen.
unfoldable pub force_check : ℕ → Arena → Arena
unfolding dispatch_telemetry
force_check now a =
    if not a.is_elevated && (a.has_entered && a.is_fullscreen) && not a.document_fullscreen
    then record a {
      telemetry =
          dispatch_telemetry "fullscreen_dropped" (action "force_check_failed") now a.telemetry;
    }
    else a

-- The listener is there for a student who has entered.
unfoldable pub handle_visibility_change : Bool → ℕ → Arena → Arena
unfolding dispatch_telemetry
handle_visibility_change hidden now a =
    if not a.is_elevated && a.has_entered && hidden
    then record a {
      tab_violations = a.tab_violations + 1;
      telemetry =
          dispatch_telemetry "visibility_spoof_suspected"
            (warning "focus_lost" (a.tab_violations + 1)) now a.telemetry;
    }
    else a

-- The test of the lockout screen, which is also when the page's interval of one second runs.
unfoldable pub is_locked : Arena → Bool
is_locked a = not a.is_elevated && (a.has_entered && not a.is_fullscreen)

-- That interval; the clock does not run backwards.
unfoldable pub tick : ℕ → Arena → Arena
unfolding is_locked
tick now a = if is_locked a then record a { time_away = (now - a.leave_time) / 1000 } else a

-- What happens to the page. `drop` is a full screen that ends without its event; the last four are
-- the telemetry hook's own listeners, timers and daemon.
pub data Step : Type 0 where
  change : Bool → ℕ → Step
  drop : Step
  check : ℕ → Step
  hide : Bool → ℕ → Step
  second : ℕ → Step
  render : ℕ → Step
  leave : ℕ → Step
  enter flush : Step
  timeout : ℕ → Bool → ℕ → Step

-- The tab is hidden or shown: the telemetry hook listens, and then the arena itself.
unfoldable pub on_visibility : Bool → ℕ → Arena → Arena
unfolding handle_visibility_change AntiCheat.handle_visibility_change
on_visibility hidden now a =
    handle_visibility_change hidden now
      (record a { telemetry = AntiCheat.handle_visibility_change hidden now a.telemetry })

unfoldable pub step : Arena → Step → Arena
unfolding handle_fullscreen_change force_check on_visibility tick effects
    AntiCheat.handle_mouse_leave AntiCheat.handle_mouse_enter AntiCheat.mouse_timeout
    AntiCheat.flush_telemetry
step a (change full now) = effects now (handle_fullscreen_change full now a)
step a drop = record a { document_fullscreen = false }
step a (check now) = force_check now a
step a (hide hidden now) = on_visibility hidden now a
step a (second now) = tick now a
step a (render now) = effects now a
step a (leave now) = record a { telemetry = AntiCheat.handle_mouse_leave now a.telemetry }
step a enter = record a { telemetry = AntiCheat.handle_mouse_enter a.telemetry }
step a (timeout i has_focus now) = record a {
  telemetry = AntiCheat.mouse_timeout i has_focus now a.telemetry;
}
step a flush = record a { telemetry = AntiCheat.flush_telemetry a.telemetry }

pub run : Arena → List Step → Arena
run a [] = a
run a (s ∷ steps) = run (step a s) steps

-- `toggleFullscreen`: what the browser reports when the request is granted, or when it is left.
unfoldable pub toggle_fullscreen : Bool → ℕ → Arena → List Step
toggle_fullscreen granted now a =
    if not a.document_fullscreen
    then if granted then change true now ∷ [] else []
    else change false now ∷ []

-- The prompt that covers the page before a student enters.
unfoldable pub is_prompted : Arena → Bool
is_prompted a = not a.is_elevated && not a.has_entered
