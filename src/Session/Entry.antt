-- ===== src/Session/Entry.antt =====
-- Signing in, from the callback to the page shown.
use text.Mathlib.TextPositions.{eq_refl}
use mathlib.Core.Bool.{cond}
use campus_compile.Base.{
  true, false, Option, none, some, String, ◌≡◌, refl, arith, is_truthy, str_eq, text_or,
}
use campus_compile.Storage.{
  Storage, get_item, set_item, remove_item, get_item-set_item, get_item-remove_item,
}
use campus_compile.Session.{
  Claims, Callback, Browser, on_mount, initial_auth, oauth_success, user_of, reload, logout,
  login_page,
}
use campus_compile.Session.Routes.{
  Page, problem_list, onboarding, path, app_routes, children, protected_route, is_public, redirect,
}
use campus_compile.Session.Laws.{guarded_route}

-- The page that the callback's destination names.
abbrev pub destination : Callback → Page
destination c = cond (str_eq (text_or c.onboarded "") "true") problem_list onboarding

login_page_token : (storage : Storage) → get_item "token" (login_page storage) ≡ none
unfolding login_page
login_page_token storage = ground (
  arith,
  eq_refl "token",
  get_item-remove_item "role" "token" (remove_item "token" storage),
  get_item-remove_item "token" "token" storage,
)

logout_token : (b : Browser) → get_item "token" (logout b).storage ≡ none
unfolding logout get_item
logout_token b = refl

module _ (decode : String → Option Claims) where
  pub reload-token :
      (storage : Storage) (token : String) (claims : Claims)
      → get_item "token" storage ≡ some token
      → is_truthy (some token) ≡ true
      → decode token ≡ some claims
      → (reload decode storage).auth ≡ record {
        token = some token;
        current_user = some (user_of claims);
        is_logged_in = true;
        is_loading = false;
      }
  unfolding on_mount initial_auth
  reload-token storage token claims held full decoded = ground arith

  stored_token :
      (c : Callback) (storage : Storage) (token : String)
      → c.token ≡ some token
      → is_truthy (some token) ≡ true
      → get_item "token" (oauth_success c storage).0 ≡ some token
  unfolding oauth_success
  stored_token c storage token given full = ground (
    arith,
    eq_refl "token",
    get_item-set_item "token" "token" token storage,
    get_item-set_item "role" "token" (text_or c.role "") (set_item "token" token storage),
  )

  sent_to :
      (c : Callback) (storage : Storage) (token : String)
      → c.token ≡ some token
      → is_truthy (some token) ≡ true
      → (oauth_success c storage).1 ≡ path (destination c)
  unfolding oauth_success path
  sent_to c storage token given full = ground arith

  -- A callback that hands over a token which decodes, and an `onboarded` parameter that agrees with
  -- the token's claim, sends the browser to the path of a page that the load which follows renders,
  -- with the token's user signed in, whatever localStorage held before.
  pub callback_enters :
      (c : Callback) (storage : Storage) (token : String) (claims : Claims)
      → c.token ≡ some token
      → is_truthy (some token) ≡ true
      → decode token ≡ some claims
      → str_eq (text_or c.onboarded "") "true" ≡ claims.is_onboarded
      → ((oauth_success c storage).1 ≡ path (destination c))
        × (app_routes decode (destination c) (reload decode (oauth_success c storage).0).auth
            ≡ children (destination c))
        × ((reload decode (oauth_success c storage).0).auth.current_user ≡ some (user_of claims))
  unfolding app_routes
  callback_enters c storage token claims given full decoded agree =
      let settled =
        reload-token (oauth_success c storage).0 token claims
          (stored_token c storage token given full) full decoded in
      (sent_to c storage token given full, ground (arith, settled), ground (arith, settled))

  locked :
      (page : Page) (storage : Storage)
      → is_public page ≡ false
      → get_item "token" storage ≡ none
      → app_routes decode page (reload decode storage).auth ≡ redirect Page.login
  unfolding on_mount initial_auth protected_route
  locked page storage guarded absent =
      rw (guarded_route decode page (reload decode storage).auth guarded) (ground arith)

  -- After the login page has opened, and after a logout, a page load renders no page behind the
  -- guard: each sends the visitor to the login page.
  pub signed_out_pages :
      (page : Page) (b : Browser)
      → is_public page ≡ false
      → (app_routes decode page (reload decode (login_page b.storage)).auth ≡ redirect Page.login)
        × (app_routes decode page (reload decode (logout b).storage).auth ≡ redirect Page.login)
  signed_out_pages page b guarded = (
    locked page (login_page b.storage) guarded (login_page_token b.storage),
    locked page (logout b).storage guarded (logout_token b),
  )
