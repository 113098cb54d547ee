-- ===== src/Session/Routes.antt =====
-- The route table and its guard: frontend/src/AppRoutes.jsx. A page is the element of a route; its
-- path's parameters are left to the router.
use mathlib.Core.Bool.{cond}
use campus_compile.Base.{Bool, true, false, not, ◌&&◌, Option, none, some, String, is_truthy}
use campus_compile.Session.{Claims, AuthState}

pub data Page : Type 0 where
  landing login oauth_success onboarding : Page
  practice_arena problem_list add_problem edit_problem : Page
  contest_list add_contest edit_contest : Page
  contest_problems leaderboard contest_arena : Page

-- What the guard renders.
pub data Shown : Type 0 where
  loading : Shown
  children : Page → Shown
  redirect : Page → Shown

module _ (decode : String → Option Claims) where
  -- The guard's `try` block.
  check : Bool → Page → Claims → Shown
  check require_onboarding page c =
      cond (not require_onboarding && c.is_onboarded) (redirect problem_list)
        (cond (require_onboarding && not c.is_onboarded) (redirect onboarding) (children page))

  unfoldable pub protected_route : Bool → Page → AuthState → Shown
  unfolding check
  protected_route require_onboarding page auth = cond auth.is_loading loading (elim (auth.token) [
    | none ↦ redirect login
    | some token ↦
        cond (is_truthy (some token))
          (elim (decode token) [ some c ↦ check require_onboarding page c | none ↦ redirect login ])
          (redirect login)
  ])

  -- The `element` of each route.
  unfoldable pub app_routes : Page → AuthState → Shown
  unfolding protected_route
  app_routes landing auth = children landing
  app_routes login auth = children login
  app_routes oauth_success auth = children oauth_success
  app_routes onboarding auth = protected_route false onboarding auth
  app_routes page auth = protected_route true page auth

-- The paths of the table, and whether the layout with the navigation bar wraps the route.
unfoldable pub path : Page → String
path landing = "/"
path login = "/login"
path oauth_success = "/oauth-success"
path onboarding = "/onboarding"
path practice_arena = "/arena/:id"
path problem_list = "/problems"
path add_problem = "/add-problem"
path edit_problem = "/edit-problem/:id"
path contest_list = "/contests"
path add_contest = "/add-contest"
path edit_contest = "/edit-contest/:id"
path contest_problems = "/contests/:id/arena"
path leaderboard = "/contests/:id/arena/leaderboard"
path contest_arena = "/contests/:id/problem/:problemId"

unfoldable pub has_navbar : Page → Bool
has_navbar contest_problems = false
has_navbar leaderboard = false
has_navbar contest_arena = false
has_navbar page = true

abbrev pub is_public : Page → Bool
is_public landing = true
is_public login = true
is_public oauth_success = true
is_public page = false

-- Whether a page asks for a user who is onboarded.
abbrev pub needs_onboarding : Page → Bool
needs_onboarding onboarding = false
needs_onboarding page = true
