-- ===== src/ContestList/Screen.antt =====
-- What frontend/src/pages/ContestList.jsx shows. A contest comes with its two texts and with its
-- date as the browser prints it.
use campus_compile.Base.{
  ℕ, ltb, Bool, false, Option, none, some, List, [], ◌∷◌, ◌++◌, map, String, template, decimal,
  text_or, if◌then◌else◌,
}
use campus_compile.Paging.Controls.{has_turns, turn_buttons}
use campus_compile.View.{View, label, link, button, input, shown_if}
use campus_compile.ContestList.{
  ContestList, Contest, Viewer, Rules, is_elevated, Badge, draft_badge, upcoming, live_now, ended,
  get_status_badge, render_access_tags, can_configure, Entry, enter_arena, registered, register_now,
  locked, entry_guard,
}

pub record Titled : Type 0 where
  pub contest : Contest
  pub title : String
  pub host_organization : Option String
  pub date : String

pub data Msg : Type 0 where
  search : String → Msg
  show_view : String → Msg
  register : String → Msg
  create prev_page next_page : Msg

-- The writes of the controls; a registration writes when it is answered.
unfoldable pub update : Msg → ContestList → ContestList
update (search value) s = record s { search_query = value }
update (show_view mode) s = record s { view_mode = mode }
update _ s = s

unfoldable pub badge_label : Badge → String
badge_label draft_badge = "○ DRAFT"
badge_label upcoming = "UPCOMING"
badge_label live_now = "● LIVE NOW"
badge_label ended = "ENDED"

unfoldable pub tags : Option Rules → List (View Msg)
unfolding render_access_tags
tags rules = elim (render_access_tags rules) [
  | none ↦ label "🌍 Global Arena" ∷ []
  | some (names, more) ↦
      map (λ name. label name) names
      ++ shown_if (ltb 0 more) (label (template ("+" ∷ decimal more ∷ [])) ∷ [])
]

-- What the entry guard shows.
unfoldable pub entry_view : String → Entry → List (View Msg)
entry_view id enter_arena = link (template ("/contests/" ∷ id ∷ "/arena" ∷ [])) "Enter Arena" ∷ []
entry_view id registered = label "✅ Registered" ∷ []
entry_view id register_now = button "Register Now" false (register id) ∷ []
entry_view id locked = label "🔒 Locked" ∷ []

unfoldable pub row : ℕ → Option Viewer → (String → Bool) → Titled → List (View Msg)
unfolding tags entry_view badge_label get_status_badge can_configure entry_guard
row now viewer registrations t =
    let c = t.contest in
    label t.title
      ∷ label (badge_label (get_status_badge now c))
      ∷ label (template ("🏢 " ∷ text_or t.host_organization "CampusCompile Official" ∷ []))
      ∷ label (template ("📅 " ∷ t.date ∷ []))
      ∷ tags c.access_rules
    ++ shown_if (can_configure now viewer c)
        (link (template ("/edit-contest/" ∷ c.contest_id ∷ [])) "Configure" ∷ [])
    ++ entry_view c.contest_id (entry_guard now viewer (registrations c.contest_id) c)

unfoldable pub rows : ℕ → Option Viewer → (String → Bool) → List Titled → List (View Msg)
unfolding row
rows now viewer registrations [] = []
rows now viewer registrations (t ∷ ts) =
    row now viewer registrations t ++ rows now viewer registrations ts

unfoldable pub table : ℕ → Option Viewer → (String → Bool) → List Titled → List (View Msg)
unfolding rows
table now viewer registrations [] = label "No contests found in this category." ∷ []
table now viewer registrations (t ∷ ts) = rows now viewer registrations (t ∷ ts)

-- `titled` gives a contest its texts.
module _ (titled : Contest → Titled) where
  unfoldable pub view : ℕ → Option Viewer → ContestList → List (View Msg)
  unfolding table
  view now viewer s =
      input s.search_query false search
        ∷ (if is_elevated viewer
            then button "Published Contests" false (show_view "public")
              ∷ button "Contests Created" false (show_view "faculty")
              ∷ []
            else button "Active & Upcoming" false (show_view "upcoming")
              ∷ button "Past Contests" false (show_view "past")
              ∷ [])
      ++ shown_if (is_elevated viewer) (button "+ Create Contest" false create ∷ [])
      ++ label "Contest Details"
        ∷ label "Clearance Needed"
        ∷ label "Action"
        ∷ (if s.loading
            then label "Scanning arena servers..." ∷ []
            else table now viewer s.registered_contests (map titled s.contests.rows)
              ++ shown_if (has_turns s.contests) (turn_buttons prev_page next_page s.contests))
