-- ===== src/Onboarding/Completion.antt =====
-- The page load that follows a completed profile.
use campus_compile.Base.{true, Option, some, String, is_truthy, ◌≡◌, refl, arith, text_or}
use campus_compile.Storage.{Storage, get_item, set_item, get_item-set_item}
use campus_compile.Session.{Claims, reload}
use campus_compile.Session.Routes.{problem_list, app_routes, children, path}
use campus_compile.Session.Entry.{reload-token}
use text.Mathlib.TextPositions.{eq_refl}
use campus_compile.Onboarding.{Onboarding, onboarded, handle_submit}

text_or_same : (t d : String) → is_truthy (some t) ≡ true → text_or (some t) d ≡ t
text_or_same String.[] d h = cc
text_or_same (String.◌∷◌ c s) d h = refl

stored_token :
    (token role : String) (storage : Storage)
    → is_truthy (some token) ≡ true
    → get_item "token" (set_item "role" role (set_item "token" (text_or (some token) "") storage))
      ≡ some token
stored_token token role storage full = rw (text_or_same token "" full) (
    ground (
      arith,
      eq_refl "token",
      get_item-set_item "token" "token" token storage,
      get_item-set_item "role" "token" role (set_item "token" token storage),
    ))

-- When the server answers a profile with a token that decodes to an onboarded user, the page that
-- the browser loads next is the problem list, and it is rendered, whatever localStorage held before.
pub profile_enters :
    (decode : String → Option Claims) (o : Onboarding) (storage : Storage) (token : String)
    (role : Option String) (claims : Claims)
    → is_truthy (some token) ≡ true
    → decode token ≡ some claims
    → claims.is_onboarded ≡ true
    → let out = handle_submit (onboarded (some token) role) o storage in
      (out.1.1 ≡ some (path problem_list))
      × (app_routes decode problem_list (reload decode out.1.0).auth ≡ children problem_list)
unfolding handle_submit path app_routes
profile_enters decode o storage token role claims full decoded done =
    let stored =
      set_item "role" (text_or role "student")
        (set_item "token" (text_or (some token) "") storage) in
    let settled =
      reload-token decode stored token claims
        (stored_token token (text_or role "student") storage full) full decoded in
    rw full (refl, ground (arith, settled))
