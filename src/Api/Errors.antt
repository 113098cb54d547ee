-- ===== src/Api/Errors.antt =====
-- When an error ends the session, and what it tells the user otherwise.
use campus_compile.Base.{ℕ, true, Option, none, some, ◌≡◌, ◌≢◌, refl, arith, is_some}
use campus_compile.Storage.{Storage, clear, get_item}
use campus_compile.Api.{Response, on_error, on_request}

abbrev pub status_of : Option Response → Option ℕ
status_of none = none
status_of (some r) = some r.status

-- A response with status 401 clears localStorage, sends the browser to the login page and writes no
-- message, and a request that follows carries no token. Every other failure leaves localStorage and
-- the page as they are and writes a message.
pub session_ends :
    (r : Option Response) (storage : Storage)
    → let out = on_error r storage in
      ((status_of r ≡ some 401)
        → (out.storage ≡ clear)
          × (out.location ≡ some "/login")
          × (out.custom_message ≡ none)
          × (on_request out.storage ≡ none))
      × ((status_of r ≢ some 401)
          → (out.storage ≡ storage) × (out.location ≡ none) × (is_some out.custom_message ≡ true))
unfolding on_error on_request get_item
session_ends none storage = (λ e. cc, λ ne. (refl, refl, refl))
session_ends (some r) storage = (
  λ e. (ground arith, ground arith, ground arith, ground arith),
  λ ne. (ground arith, ground arith, ground arith),
)
