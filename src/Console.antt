-- ===== src/Console.antt =====
-- The console below the editor: frontend/src/pages/Arena/ExecutionConsole.jsx. Its variables are the
-- engine's.
use campus_compile.Base.{
  true, false, not, List, [], ◌∷◌, some, String, str_eq, text_or, if◌then◌else◌,
}
use campus_compile.Engine.{Engine}
use campus_compile.View.{View, label, button, input, shown_if}

pub data Msg : Type 0 where
  toggle : Msg
  show_tab : String → Msg
  set_custom_input : String → Msg

unfoldable pub update : Msg → Engine → Engine
update toggle e = record e { is_console_open = not e.is_console_open }
update (show_tab tab) e = record e { active_tab = tab; is_console_open = true }
update (set_custom_input value) e = record e { custom_input = value }

unfoldable pub view : Engine → List (View Msg)
view e =
    button (if e.is_console_open then "Collapse" else "Expand Console") false toggle
    ∷ button "Input" false (show_tab "input")
    ∷ button "Output" false (show_tab "output")
    ∷ shown_if e.is_console_open (
        (if str_eq e.active_tab "input"
          then input e.custom_input false set_custom_input
          else label (text_or (some e.console_output) "No output to display."))
        ∷ [])
