-- ===== src/Session.antt =====
-- The signed-in session: frontend/src/context/AuthContext.jsx, and the pages that write it,
-- pages/OAuthSuccess.jsx, pages/Login.jsx and pages/Onboarding.jsx. The session's state is
-- localStorage, the context's state and where the browser was last sent. `jwtDecode` is the
-- parameter `decode`; `none` is its exception.
pub mod Routes
pub mod Navbar
pub mod Laws
pub mod Entry
use mathlib.Core.Bool.{cond}
use campus_compile.Base.{
  Bool, true, false, Option, none, some, List, [], ◌∷◌, String, str_eq, if◌then◌else◌, is_truthy,
  or_text, text_or, to_lower, ◌&&◌, ◌||◌,
}
use campus_compile.Storage.{Storage, get_item, set_item, remove_item, clear}
use mathlib.Core.Option

-- The claims of a token that the client reads.
pub record Claims : Type 0 where
  pub user_id : Option String
  pub sub : Option String
  pub id : Option String
  pub role : Option String
  pub is_onboarded : Bool

pub record User : Type 0 where
  pub id : Option String
  pub role : Option String
  pub is_onboarded : Bool

pub record AuthState : Type 0 where
  pub token : Option String
  pub current_user : Option User
  pub is_logged_in : Bool
  pub is_loading : Bool

-- `location` is where `window.location.href` was last sent, if it was.
pub record Browser : Type 0 where
  pub storage : Storage
  pub auth : AuthState
  pub location : Option String

abbrev pub signed_out : AuthState
signed_out = record { token = none; current_user = none; is_logged_in = false; is_loading = false }

unfoldable pub initial_auth : Storage → AuthState
initial_auth storage = record {
  token = (let t = get_item "token" storage in if is_truthy t then t else none);
  current_user = none;
  is_logged_in = false;
  is_loading = true;
}

unfoldable pub user_of : Claims → User
user_of c = record {
  id = or_text (or_text c.user_id c.sub) c.id;
  role = Option.map to_lower c.role;
  is_onboarded = c.is_onboarded;
}

module _ (decode : String → Option Claims) where
  restore : String → Browser → Browser
  restore token b = elim (decode token) [
    | some c ↦ record b {
      auth = record {
        token = some token;
        current_user = some (user_of c);
        is_logged_in = true;
        is_loading = false;
      };
    }
    | none ↦ record b {
      storage = remove_item "token" b.storage;
      auth = record (b.auth) { is_loading = false };
    }
  ]

  -- The provider's effect on mount.
  unfoldable pub on_mount : Browser → Browser
  unfolding restore
  on_mount b = elim (get_item "token" b.storage) [
    | some token ↦
        cond (is_truthy (some token)) (restore token b)
          (record b { auth = record (b.auth) { is_loading = false } })
    | none ↦ record b { auth = record (b.auth) { is_loading = false } }
  ]

  -- `login` writes the token before it decodes it; an exception leaves the state as it was. The
  -- user that it builds has no `isOnboarded`.
  unfoldable pub login : String → Browser → Browser
  login token b =
      let stored = set_item "token" token b.storage in
      elim (decode token) [
        | some c ↦ record b {
          storage = stored;
          auth = record {
            token = some token;
            current_user = some (record (user_of c) { is_onboarded = false });
            is_logged_in = true;
            is_loading = false;
          };
        }
        | none ↦ record b { storage = stored }
      ]

unfoldable pub logout : Browser → Browser
logout b = record { storage = clear; auth = signed_out; location = some "/" }

-- A full page load over what localStorage holds.
abbrev pub reload : (String → Option Claims) → Storage → Browser
reload decode storage =
    on_mount decode (record { storage = storage; auth = initial_auth storage; location = none })

-- The query parameters that the sign-in callback hands to /oauth-success.
pub record Callback : Type 0 where
  pub token : Option String
  pub role : Option String
  pub onboarded : Option String

unfoldable pub oauth_success : Callback → Storage → Storage × String
oauth_success c storage = elim (c.token) [
  | none ↦ (storage, "/login")
  | some token ↦
      cond (is_truthy (some token))
        (
          cond (is_truthy c.role)
              (set_item "role" (text_or c.role "") (set_item "token" token storage))
              (set_item "token" token storage),
          cond (str_eq (text_or c.onboarded "") "true") "/problems" "/onboarding",
        )
        (storage, "/login")
]

-- The login page's effect and button.
unfoldable pub login_page : Storage → Storage
login_page storage = remove_item "role" (remove_item "token" storage)

abbrev pub handle_sso_login : String
handle_sso_login = "/api/auth/login"
