-- ===== src/ContestArena.antt =====
-- The arena of a contest's problem: frontend/src/pages/Arena/ContestArena.jsx, with the layout around
-- a contest's other pages, frontend/src/pages/Contest/ContestArenaLayout.jsx. The arena and the code
-- editor each run the telemetry hook.
pub mod Watch
use campus_compile.Base.{
  ℕ, ◌+◌, Bool, true, false, not, ◌&&◌, ◌||◌, Option, none, some, List, [], ◌∷◌, ◌++◌, String,
  str_eq, template, decimal, ltb, if◌then◌else◌, includes, text_or, is_some,
}
use campus_compile.Engine.{Details}
use campus_compile.AntiCheat
use campus_compile.AntiCheat.{Hook, Event}
use campus_compile.Arena
use campus_compile.Arena.{Arena, Step, is_locked, is_prompted, toggle_fullscreen}
use campus_compile.View.{View, label, link, button, shown_if, wrap}
use campus_compile.Workbench
use campus_compile.Workbench.{Page, body}

pub record Room : Type 0 where
  pub contest_id : String
  pub arena : Arena
  pub page : Page
  pub editor_hook : Hook
  pub location : Option String

pub data Msg : Type 0 where
  work : Workbench.Msg → Msg
  enter acknowledge exit to_hub : Msg

abbrev pub hub : Room → String
hub r = template ("/contests/" ∷ r.contest_id ∷ "/arena" ∷ [])

-- `handleAcknowledgeLockout`.
unfoldable pub handle_acknowledge_lockout : Bool → ℕ → Room → Room
unfolding toggle_fullscreen
handle_acknowledge_lockout granted now r = record r {
  arena = Arena.run r.arena (toggle_fullscreen granted now r.arena);
  location = some (hub r);
}

unfoldable pub update : Bool → ℕ → Msg → Room → Room
unfolding handle_acknowledge_lockout toggle_fullscreen Workbench.act
update granted now (work m) r = record r {
  page = Workbench.act (not r.arena.is_elevated) (Workbench.click m) r.page;
}
update granted now enter r = record r {
  arena = Arena.run r.arena (toggle_fullscreen granted now r.arena);
}
update granted now acknowledge r = handle_acknowledge_lockout granted now r
update granted now exit r = record r { location = some "/contests" }
update granted now to_hub r = record r { location = some (hub r) }

-- The tab is hidden or shown: both hooks listen, the editor's once the problem is there, and then
-- the arena itself.
unfoldable pub handle_visibility_change : Bool → ℕ → Room → Room
unfolding AntiCheat.handle_visibility_change Arena.on_visibility
handle_visibility_change hidden now r = record r {
  editor_hook =
      if is_some r.page.engine.problem
      then AntiCheat.handle_visibility_change hidden now r.editor_hook
      else r.editor_hook;
  arena = Arena.on_visibility hidden now r.arena;
}

-- The screens that cover a page of the contest, with the message of the button on them.
module _ {M : Type 0} where
  unfoldable pub lockout : M → String → Arena → List (View M)
  unfolding is_locked
  lockout on_return name a = shown_if (is_locked a) (
      label "Environment Lockout"
      ∷ label
          "You have exited the secure Arena. To maintain academic integrity, you must remain in Fullscreen mode. Continuing to leave the environment will flag your submission."
      ∷ label "Time Outside Arena"
      ∷ label (template (decimal a.time_away ∷ "s" ∷ []))
      ∷ label "This incident is being recorded"
      ∷ button name false on_return
      ∷ [])

  unfoldable pub warning : Arena → List (View M)
  warning a = shown_if (not a.is_elevated && ltb 0 a.tab_violations) (
      label (
        template (
          "Warning: Focus lost "
          ∷ decimal a.tab_violations
          ∷ " time(s). This activity is being recorded."
          ∷ []))
      ∷ [])

  unfoldable pub prompt : M → Arena → List (View M)
  unfolding is_prompted
  prompt on_enter a = shown_if (is_prompted a) (
      label "Ready to Begin?"
      ∷ label
          "You must enter secure Arena Mode to view problems and submit code. Once started, exiting fullscreen will trigger a security lockout."
      ∷ button "Enter Secure Arena" false on_enter
      ∷ [])

unfoldable pub view : Room → List (View Msg)
unfolding lockout warning prompt body wrap
view r = elim r.page.engine.problem [
  | none ↦ label "Loading Contest Arena..." ∷ []
  | some d ↦
      lockout acknowledge "Acknowledge & Return to Hub" r.arena
      ++ warning r.arena
      ++ prompt enter r.arena
      ++ label "SECURE EXAM ENVIRONMENT"
        ∷ shown_if r.arena.is_elevated (button "Exit to Workspace" false exit ∷ [])
      ++ button "Return to Hub" false to_hub
        ∷ wrap work (body false (not r.arena.is_elevated) d r.page)
]

-- The layout: its modal, and whether it has left for the contests.
pub record Layout : Type 0 where
  pub arena : Arena
  pub show_finish_modal : Bool
  pub location : Option String

pub data LayoutMsg : Type 0 where
  toggle ask_finish cancel_finish confirm_finish : LayoutMsg

unfoldable pub handle_finish_contest : ℕ → Layout → Layout
handle_finish_contest now l = record l {
  arena =
      if l.arena.document_fullscreen
      then Arena.run l.arena (Arena.change false now ∷ [])
      else l.arena;
  location = some "/contests";
}

unfoldable pub update_layout : Bool → ℕ → LayoutMsg → Layout → Layout
unfolding handle_finish_contest toggle_fullscreen
update_layout granted now toggle l = record l {
  arena = Arena.run l.arena (toggle_fullscreen granted now l.arena);
}
update_layout granted now ask_finish l = record l { show_finish_modal = true }
update_layout granted now cancel_finish l = record l { show_finish_modal = false }
update_layout granted now confirm_finish l = handle_finish_contest now l

-- The layout around a contest's page, which is what its `Outlet` shows.
unfoldable pub view_layout : String → List (View LayoutMsg) → Layout → List (View LayoutMsg)
unfolding lockout warning prompt
view_layout contest_id outlet l =
    lockout toggle "Acknowledge & Return to Arena" l.arena
    ++ shown_if l.show_finish_modal (
        label "Finish Contest?"
        ∷ label
            "Are you sure you want to finish the contest and exit the arena? Ensure all your code is submitted before leaving."
        ∷ button "Cancel" false cancel_finish
        ∷ button "Confirm & Exit" false confirm_finish
        ∷ [])
    ++ warning l.arena
    ++ link (template ("/contests/" ∷ contest_id ∷ "/arena" ∷ [])) "Arena Problems"
      ∷ link (template ("/contests/" ∷ contest_id ∷ "/arena/leaderboard" ∷ [])) "Live Leaderboard"
      ∷ shown_if (not l.arena.is_elevated && l.arena.has_entered)
          (button "Finish Contest" false ask_finish ∷ [])
    ++ shown_if l.arena.is_elevated (link "/contests" "Exit to Workspace" ∷ [])
    ++ prompt toggle l.arena
    ++ outlet
