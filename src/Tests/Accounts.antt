-- ===== src/Tests/Accounts.antt =====
-- Concrete visitors: sessions, contests' doors, the watched arena and the telemetry.
use campus_compile.Base.{
  ◌*◌, ◌≤◌, ◌≡◌, ◌≢◌, ◌↔◌, refl, true, false, Option, none, some, List, [], ◌∷◌, ◌++◌, String,
  arith, length, is_truthy, str_eq, if◌then◌else◌, is_some,
}
use campus_compile.Storage.{clear}
use campus_compile.Session.{
  Claims, AuthState, Browser, Callback, user_of, oauth_success, login_page, logout, reload,
}
use campus_compile.Session.Routes.{
  Page, problem_list, contest_list, onboarding, app_routes, children, redirect, path,
}
use campus_compile.Session.Navbar
use campus_compile.Session.Navbar.{has_link, shows_links-app_routes}
use campus_compile.Session.Laws.{children_iff, redirect_settles}
use campus_compile.Session.Entry.{destination, callback_enters, signed_out_pages}
use campus_compile.Api.{Response, on_error, on_request}
use campus_compile.Api.Errors.{session_ends, status_of}
use campus_compile.Onboarding.{Onboarding, handle_submit, onboarded}
use campus_compile.Onboarding.Completion.{profile_enters}
use campus_compile.AntiCheat.{Hook, Event, log_keystroke, typing, round_wpm}
use campus_compile.AntiCheat.Keys.{spaced, even_typing, report_rate, log_keys}
use campus_compile.AntiCheat.Batches.{paste, flush, run, recorded, run-recorded}

abbrev student : Claims
student = record {
  user_id = some "u";
  sub = none;
  id = none;
  role = some "student";
  is_onboarded = true;
}

abbrev decode : String → Option Claims
decode token = if str_eq token "t" then some student else none

abbrev signed_in : AuthState
signed_in = record {
  token = some "t";
  current_user = some (user_of student);
  is_logged_in = true;
  is_loading = false;
}

children_iff_example : (app_routes decode problem_list signed_in ≡ children problem_list) ↔ (
    (false ≡ false)
    × ((token : String) × (signed_in.token ≡ some token)
        × (is_truthy (some token) ≡ true)
        × ((c : Claims) × (decode token ≡ some c) × (c.is_onboarded ≡ true))))
children_iff_example = children_iff decode problem_list signed_in refl

redirect_settles_example : app_routes decode problem_list signed_in ≡ children problem_list
unfolding app_routes
redirect_settles_example = redirect_settles decode onboarding problem_list signed_in refl

abbrev callback : Callback
callback = record { token = some "t"; role = some "student"; onboarded = some "true" }

callback_enters_example :
    ((oauth_success callback clear).1 ≡ path (destination callback))
    × (app_routes decode
          (destination callback)
          (reload decode (oauth_success callback clear).0).auth
        ≡ children (destination callback))
    × ((reload decode (oauth_success callback clear).0).auth.current_user ≡ some (user_of student))
callback_enters_example = callback_enters decode callback clear "t" student refl refl refl refl

abbrev browser : Browser
browser = record { storage = clear; auth = signed_in; location = none }

signed_out_pages_example :
    (app_routes decode problem_list (reload decode (login_page clear)).auth ≡ redirect Page.login)
    × (app_routes decode problem_list (reload decode (logout browser).storage).auth
        ≡ redirect Page.login)
signed_out_pages_example = signed_out_pages decode problem_list browser refl

abbrev expired : Option Response
expired = some (record { status = 401; error = none; retry_in = none; retry_after = none })

session_ends_example :
    let out = on_error expired clear in
    ((status_of expired ≡ some 401)
      → (out.storage ≡ clear)
        × (out.location ≡ some "/login")
        × (out.custom_message ≡ none)
        × (on_request out.storage ≡ none))
    × ((status_of expired ≢ some 401)
        → (out.storage ≡ clear) × (out.location ≡ none) × (is_some out.custom_message ≡ true))
session_ends_example = session_ends expired clear

abbrev hook : Hook
hook = record {
  contest_id = some "c";
  is_contest = true;
  key_buffer = [];
  mouse_leave_timer = none;
  timers = [];
  event_buffer = [];
  posted = [];
}

abbrev typed : Hook
typed = record hook { key_buffer = spaced 49 1000 20 }

even_typing_example :
    let h' = log_keystroke 1980 typed in
    let event : Event = record {
      event_type = "autotyper_suspected";
      metadata = typing (round_wpm 980) 0 20;
      timestamp = 1980;
    } in
    (h'.key_buffer ≡ []) × (h'.event_buffer ≡ event ∷ [])
even_typing_example = even_typing typed 1000 20 refl refl

report_rate_example : 50 * length (log_keys (1 ∷ 2 ∷ []) hook).event_buffer ≤ 2
report_rate_example = report_rate (1 ∷ 2 ∷ []) hook (omega arith)

run-recorded_example :
    (es : List Event) × (recorded (run (paste 5 ∷ flush ∷ paste 6 ∷ []) hook) ≡ recorded hook ++ es)
    × (length es ≤ 3)
run-recorded_example = run-recorded (paste 5 ∷ flush ∷ paste 6 ∷ []) hook

abbrev newcomer : Onboarding
newcomer = record {
  error = "";
  is_loading = true;
  form_data = record {
    username = "ann";
    course = "B.Tech";
    department = "CSE";
    graduation_year = some 2029;
    batch = "1";
    section = "1";
    student_group = "1";
  };
}

profile_enters_example :
    let out = handle_submit (onboarded (some "t") none) newcomer clear in
    (out.1.1 ≡ some (path problem_list))
    × (app_routes decode problem_list (reload decode out.1.0).auth ≡ children problem_list)
profile_enters_example = profile_enters decode newcomer clear "t" none student refl refl refl

shows_links-app_routes_example :
    let auth = (reload decode clear).auth in
    ((has_link (path problem_list) (Navbar.view auth) ≡ true)
      ↔ (app_routes decode problem_list auth ≡ children problem_list))
    × ((has_link (path contest_list) (Navbar.view auth) ≡ true)
        ↔ (app_routes decode contest_list auth ≡ children contest_list))
shows_links-app_routes_example = shows_links-app_routes decode clear
