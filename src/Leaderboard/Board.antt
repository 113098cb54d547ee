-- ===== src/Leaderboard/Board.antt =====
-- The standings that frontend/src/pages/Leaderboard.jsx shows. A telemetry count that is missing is 0.
use campus_compile.Base.{
  ℕ, Bool, false, ◌||◌, Option, none, some, List, [], ◌∷◌, ◌++◌, map, String, ◌≡◌, refl, ap, str_eq,
  template, decimal, ltb, ◌==◌, if◌then◌else◌,
}
use campus_compile.View.{View, label, shown_if}
use campus_compile.Leaderboard.{Leaderboard}

pub record Alerts : Type 0 where
  pub total : ℕ
  pub blur : ℕ
  pub paste_attempt : ℕ
  pub autotyper_suspected : ℕ
  pub visibility_spoof_suspected : ℕ
  pub anomalous_routing : ℕ

pub record Player : Type 0 where
  pub rank : ℕ
  pub username : String
  pub solves : ℕ
  pub penalty : ℕ
  pub alerts : Option Alerts

-- `isElevated`, from the role in localStorage.
unfoldable pub is_elevated : Option String → Bool
is_elevated none = false
is_elevated (some role) = str_eq role "admin" || str_eq role "professor"

-- The page has no controls.
abbrev pub Shown : Type 0
Shown = View ⊥

unfoldable pub status : Leaderboard Player → String
status s =
    if s.connection_error
    then "DISCONNECTED"
    else if str_eq s.audit "failed"
    then "FAILED TO VERIFY"
    else if str_eq s.audit "completed"
    then "VERIFIED"
    else "SYNCED"

unfoldable pub rank_label : ℕ → String
rank_label rank =
    if rank == 1
    then "🏆 1"
    else if rank == 2
    then "🥈 2"
    else if rank == 3
    then "🥉 3"
    else decimal rank

abbrev pub count : String → ℕ → List Shown
count name n = shown_if (ltb 0 n) (label name ∷ label (decimal n) ∷ [])

unfoldable pub flags : Option Alerts → List Shown
flags none = []
flags (some a) = shown_if (ltb 0 a.total) (
    label (template ("Telemetry Flags (" ∷ decimal a.total ∷ ")" ∷ []))
      ∷ count "Tab Switches:" a.blur
    ++ count "Paste Attempts:" a.paste_attempt
    ++ count "AutoTyper:" a.autotyper_suspected
    ++ count "Visibility Spoof:" a.visibility_spoof_suspected
    ++ count "IP Hopping:" a.anomalous_routing)

unfoldable pub row : Bool → Player → List Shown
unfolding rank_label flags
row elevated p =
    label (rank_label p.rank)
    ∷ label p.username
    ∷ label (decimal p.solves)
    ∷ label (template (decimal p.penalty ∷ " min" ∷ []))
    ∷ shown_if elevated (flags p.alerts)

unfoldable pub rows : Bool → List Player → List Shown
unfolding row
rows elevated [] = []
rows elevated (p ∷ ps) = row elevated p ++ rows elevated ps

unfoldable pub body : Bool → List Player → List Shown
unfolding rows
body elevated [] = label "No participants have solved a problem yet. The arena is quiet." ∷ []
body elevated (p ∷ ps) = rows elevated (p ∷ ps)

unfoldable pub view : Bool → Leaderboard Player → List Shown
unfolding status body
view elevated s =
    if s.loading
    then label "Establishing live telemetry with the Arena..." ∷ []
    else label "Live Standings"
        ∷ label "STATUS:"
        ∷ label (status s)
        ∷ label "Rank"
        ∷ label "Participant"
        ∷ label "Solves"
        ∷ label "Penalty"
        ∷ shown_if elevated (label "Integrity" ∷ [])
      ++ body elevated s.rows

-- The standings without their telemetry.
abbrev pub unflagged : Player → Player
unflagged p = record p { alerts = none }

rows-unflagged : (ps : List Player) → rows false (map unflagged ps) ≡ rows false ps
unfolding rows row
rows-unflagged [] = refl
rows-unflagged (p ∷ ps) = ap (λ vs. row false p ++ vs) (rows-unflagged ps)

body-unflagged : (ps : List Player) → body false (map unflagged ps) ≡ body false ps
unfolding body row
body-unflagged [] = refl
body-unflagged (p ∷ ps) = rows-unflagged (p ∷ ps)

-- What the page shows to a visitor who is neither an administrator nor a professor does not depend
-- on the telemetry of the participants: it is what the standings without any telemetry show.
pub view-unflagged :
    (role : Option String) (s : Leaderboard Player)
    → is_elevated role ≡ false
    → view (is_elevated role) s ≡ view (is_elevated role) (record s { rows = map unflagged s.rows })
unfolding view
view-unflagged role s outsider = rw (outsider, body-unflagged s.rows) refl
