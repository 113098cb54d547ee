-- ===== src/ContestList.antt =====
-- The contest list: frontend/src/pages/ContestList.jsx. A time is in milliseconds, `none` for an
-- Invalid Date, with which every comparison is false.
pub mod Guards
pub mod AsView
pub mod Screen
use mathlib.Core.Option
use mathlib.Core.List.{List, [], ◌∷◌, ◌++◌}
use campus_compile.Base.{
  ℕ, Bool, true, false, not, Option, none, some, ◌&&◌, ◌||◌, String, str_eq, ◌==◌, if◌then◌else◌,
  ltb, leb, length, take, ◌%◌, ◌/◌, map, template, decimal, ◌-◌, or_default, text_or,
}
use campus_compile.Paging.{
  Pager, fresh, receive, prev, next, rewind, Paged, back, forth, stay, arrow,
}
use campus_compile.Paging.View.{Query}

pub record Viewer : Type 0 where
  pub id : String
  pub role : String

-- The demographic rules that the tags show; a missing list is empty.
pub record Rules : Type 0 where
  pub allowed_courses : List String
  pub allowed_departments : List String
  pub allowed_graduation_years : List ℕ

pub record Contest : Type 0 where
  pub contest_id : String
  pub author_id : String
  pub is_public : Bool
  pub start_time : Option ℕ
  pub end_time : Option ℕ
  pub access_rules : Option Rules

abbrev pub limit : ℕ
limit = 10

abbrev pub before : ℕ → Option ℕ → Bool
before now none = false
before now (some t) = ltb now t

abbrev pub from : ℕ → Option ℕ → Bool
from now none = false
from now (some t) = leb t now

abbrev pub until : ℕ → Option ℕ → Bool
until now none = false
until now (some t) = leb now t

-- `currentUser?.role === r`.
abbrev pub has_role : Option Viewer → String → Bool
has_role none r = false
has_role (some v) r = str_eq v.role r

abbrev pub is_elevated : Option Viewer → Bool
is_elevated viewer = has_role viewer "admin" || has_role viewer "professor"

abbrev pub is_author : Option Viewer → Contest → Bool
is_author none c = false
is_author (some v) c = str_eq c.author_id v.id

pub data Badge : Type 0 where
  draft_badge upcoming live_now ended : Badge

unfoldable pub get_status_badge : ℕ → Contest → Badge
get_status_badge now c =
    if not c.is_public
    then draft_badge
    else if before now c.start_time
    then upcoming
    else if from now c.start_time && until now c.end_time
    then live_now
    else ended

-- `'${y.toString().slice(-2)}`.
unfoldable pub year_tag : ℕ → String
year_tag y = template (
    "'"
    ∷ (if ltb y 100 then decimal y else template (decimal (y % 100 / 10) ∷ decimal (y % 10) ∷ []))
    ∷ [])

-- The tags that are shown and the number of those that are not; none of a global contest.
unfoldable pub render_access_tags : Option Rules → Option (List String × ℕ)
unfolding year_tag
render_access_tags none = none
render_access_tags (some rules) =
    let tags =
      rules.allowed_courses
      ++ rules.allowed_departments
      ++ map year_tag rules.allowed_graduation_years in
    if length tags == 0 then none else some (take 3 tags, length tags - 3)

-- The test of the "Configure" link.
unfoldable pub can_configure : ℕ → Option Viewer → Contest → Bool
can_configure now viewer c =
    has_role viewer "admin"
    || (has_role viewer "professor" && (is_author viewer c && before now c.start_time))

pub data Entry : Type 0 where
  enter_arena registered register_now locked : Entry

-- The entry guard; `is_registered` is `registeredContests[contest.contest_id]`.
unfoldable pub entry_guard : ℕ → Option Viewer → Bool → Contest → Entry
entry_guard now viewer is_registered c =
    let is_upcoming = before now c.start_time in
    if not is_upcoming || (has_role viewer "admin" || is_author viewer c)
    then enter_arena
    else if is_upcoming && has_role viewer "student"
    then if is_registered then registered else register_now
    else locked

pub record ContestList : Type 0 where
  pub contests : Pager Contest
  pub loading : Bool
  pub view_mode : String
  pub registered_contests : String → Bool
  pub search_query : String

unfoldable pub initial : Option Viewer → ContestList
initial viewer = record {
  contests = fresh;
  loading = true;
  view_mode = if is_elevated viewer then "public" else "upcoming";
  registered_contests = λ id. false;
  search_query = "";
}

-- The answer to the registration: a success, or the alert of `error.response?.data?.error`.
unfoldable pub on_registered : String → ContestList → ContestList
on_registered contest_id s = record s {
  registered_contests = λ id. if str_eq id contest_id then true else s.registered_contests id;
}

unfoldable pub on_register_error : Option String → ContestList → ContestList × String
on_register_error message s = (s, text_or message "Failed to register for contest")

unfoldable pub fetch_contests : ℕ → String → ContestList → ContestList × Query
fetch_contests current_offset query s = (
  (if current_offset == 0 then record s { loading = true } else s),
  record {
    endpoint = "/contests";
    limit = limit;
    offset = current_offset;
    search = query;
    view_mode = some s.view_mode;
  },
)

unfoldable pub on_response : ℕ → Option (List Contest) → ContestList → ContestList
on_response current_offset rows s = record s {
  contests = receive limit current_offset rows s.contests;
  loading = false;
}

unfoldable pub on_error : ContestList → ContestList
on_error s = record s { loading = false }

-- The timer of the effect on `searchQuery` and `viewMode`.
unfoldable pub on_debounce : ContestList → ContestList × Query
unfolding fetch_contests
on_debounce s = fetch_contests 0 s.search_query (record s { contests = rewind s.contests })

pub turn : Option ℕ → ContestList → ContestList × Option Query
turn none s = (s, none)
turn (some offset) s = let (s', q) = fetch_contests offset s.search_query s in (s', some q)

unfoldable pub handle_prev : ContestList → ContestList × Option Query
unfolding turn fetch_contests
handle_prev s = turn (prev limit s.contests) s

unfoldable pub handle_next : ContestList → ContestList × Option Query
unfolding turn fetch_contests
handle_next s = turn (next limit s.contests) s

unfoldable pub handle_key_down : String → String → ContestList → ContestList × Option Query
unfolding handle_prev handle_next
handle_key_down focused key s = elim (arrow focused key) [
  | back ↦ handle_prev s
  | forth ↦ handle_next s
  | stay ↦ (s, none)
]
