-- ===== src/CodeEditor.antt =====
-- The code editor of both arenas: frontend/src/pages/Arena/CodeEditor.jsx. The Monaco editor is what
-- the component keeps of it: the text that it shows (`none` before it is mounted) and what was
-- registered with it. `code` and `language` are the parent's; a handler returns what it writes there.
pub mod Clipboard
pub mod Sync
pub mod Controls
use mathlib.Core.Option
use campus_compile.Base.{
  ℕ, ◌+◌, Bool, true, false, not, Option, none, some, List, [], ◌∷◌, ◌++◌, ◌&&◌, ◌||◌, String,
  str_eq, text_or, if◌then◌else◌, is_some, or_default, find, one_of,
}
use campus_compile.Engine.{boilerplates}
use campus_compile.View.{View, label, button, input, select, shown_if}

-- The listeners on the editor's node and on its hidden text area.
pub data Target : Type 0 where
  wrapper textarea : Target

pub data Handler : Type 0 where
  prevent_paste prevent_copy : Handler

pub record Listener : Type 0 where
  pub element : Target
  pub type : String
  pub handler : Handler

-- The subscriptions to the editor's own events.
pub data Disposable : Type 0 where
  on_key_down on_did_paste : Disposable

-- The commands that take the place of the shortcuts.
pub data Command : Type 0 where
  key_v key_c key_x : Command

pub record CodeEditor : Type 0 where
  pub shown : Option String
  pub is_internal_change : Bool
  pub show_reset_modal : Bool
  pub seen_code : String
  pub seen_language : String
  pub disposables : List Disposable
  pub listeners : List Listener
  pub commands : List Command
  pub contextmenu : Bool

-- The first render: its effect has run on the props, with no editor yet.
unfoldable pub initial : String → String → CodeEditor
initial code language = record {
  shown = none;
  is_internal_change = false;
  show_reset_modal = false;
  seen_code = code;
  seen_language = language;
  disposables = [];
  listeners = [];
  commands = [];
  contextmenu = true;
}

unfoldable pub attach_event : Bool → Target → String → Handler → CodeEditor → CodeEditor
attach_event exists element type handler e =
    if exists
    then record e {
      listeners = e.listeners ++ record { element = element; type = type; handler = handler } ∷ [];
    }
    else e

unfoldable pub attach_all : Bool → Target → CodeEditor → CodeEditor
unfolding attach_event
attach_all exists element e = attach_event exists element "cut" prevent_copy (
    attach_event exists element "copy" prevent_copy (
      attach_event exists element "drop" prevent_paste
        (attach_event exists element "paste" prevent_paste e)))

-- The editor is there, with the text that it was created with; `has_node` and `has_textarea` say
-- what the document had then.
unfoldable pub handle_editor_mount : Bool → Bool → Bool → String → CodeEditor → CodeEditor
unfolding attach_all
handle_editor_mount is_contest has_node has_textarea text e =
    let mounted = record e { shown = some text } in
    let secured = record mounted {
      disposables = e.disposables ++ on_key_down ∷ [];
      contextmenu = false;
      commands = key_v ∷ key_c ∷ key_x ∷ [];
    } in
    let attached = attach_all has_textarea textarea (attach_all true wrapper secured) in
    if is_contest
    then if has_node
      then record attached { disposables = attached.disposables ++ on_did_paste ∷ [] }
      else secured
    else mounted

-- The cleanup on unmount.
unfoldable pub cleanup : CodeEditor → CodeEditor
cleanup e = record e { disposables = []; listeners = [] }

-- `onChange` with the editor's new text, which is also what it writes to `code`.
unfoldable pub handle_editor_change : String → CodeEditor → CodeEditor
handle_editor_change value e = record e { shown = some value; is_internal_change = true }

unfoldable pub handle_reset : CodeEditor → CodeEditor
handle_reset e = record e { show_reset_modal = true }

unfoldable pub cancel_reset : CodeEditor → CodeEditor
cancel_reset e = record e { show_reset_modal = false }

-- "Reset Code": the template is what it writes to `code`.
unfoldable pub confirm_reset : String → CodeEditor → CodeEditor × String
confirm_reset language e =
    (record e { show_reset_modal = false }, or_default (boilerplates language) "")

-- The language box: what it writes to `language` and to `code`.
unfoldable pub select_language : String → String × String
select_language value = (value, or_default (boilerplates value) "")

-- The effect on `code` and `language`: it runs when one of them differs from what it saw last. A
-- text that it sets comes back through `onChange` before the flag is reset.
unfoldable pub sync_effect : String → String → CodeEditor → CodeEditor × String
unfolding handle_editor_change
sync_effect code language e =
    let value = text_or (some code) (or_default (boilerplates language) "") in
    let writes =
      not e.is_internal_change && elim e.shown [ none ↦ false | some s ↦ not (str_eq s code) ] in
    let seen = record e {
      is_internal_change = false;
      seen_code = code;
      seen_language = language;
    } in
    if str_eq code e.seen_code && str_eq language e.seen_language
    then (e, code)
    else if writes
    then (record (handle_editor_change value seen) { is_internal_change = false }, value)
    else (seen, code)

-- What an event on the page does when a listener has it: each stops the event and its default, and
-- the one that blocks a paste logs the attempt. The node is asked before the text area in it.
pub data Reaction : Type 0 where
  passed : Reaction
  blocked : Bool → Reaction

same_target : Target → Target → Bool
same_target wrapper wrapper = true
same_target textarea textarea = true
same_target _ _ = false

reaction : Handler → Reaction
reaction prevent_paste = blocked true
reaction prevent_copy = blocked false

unfoldable pub handler_on : Target → String → List Listener → Option Handler
unfolding same_target
handler_on element type ls =
    Option.map (λ l. l.handler) (find (λ l. same_target l.element element && str_eq type l.type) ls)

unfoldable pub on_dom_event : Target → String → CodeEditor → Reaction
unfolding handler_on reaction
on_dom_event target type e = elim (handler_on wrapper type e.listeners) [
  | some h ↦ reaction h
  | none ↦ elim target [
    | wrapper ↦ passed
    | textarea ↦ elim (handler_on textarea type e.listeners) [ some h ↦ reaction h | none ↦ passed ]
  ]
]

pub data Msg : Type 0 where
  typed : String → Msg
  choose_language : String → Msg
  reset cancel confirm : Msg
  run submit : Msg

unfoldable pub reset_modal : List (View Msg)
reset_modal =
    label "Reset Editor?"
    ∷ label
        "Are you sure you want to reset the editor to the default template? Your current code will be permanently lost."
    ∷ button "Cancel" false cancel
    ∷ button "Reset Code" false confirm
    ∷ []

-- The toolbar and the editor itself, which takes no typing before it is mounted.
unfoldable pub controls : String → Bool → Bool → CodeEditor → List (View Msg)
controls language is_contest is_processing e =
    select language ("cpp" ∷ "python" ∷ "java" ∷ []) is_processing choose_language
      ∷ button "" is_processing reset
      ∷ shown_if is_contest (label "● CONTEST MODE SECURED" ∷ [])
    ++ button "Run" is_processing run
      ∷ button "Submit" is_processing submit
      ∷ input (or_default e.shown "") (is_processing || not (is_some e.shown)) typed
      ∷ []

unfoldable pub view : String → Bool → Bool → CodeEditor → List (View Msg)
view language is_contest is_processing e =
    shown_if e.show_reset_modal reset_modal ++ controls language is_contest is_processing e
