-- ===== src/Api.antt =====
-- The interceptors of the HTTP client: frontend/src/services/api.js. An error is the response that it
-- carries, if any, and the message that the interceptor writes on it.
pub mod Errors
use campus_compile.Base.{
  ℕ, Bool, true, false, Option, none, some, List, [], ◌∷◌, String, template, decimal, text_or,
  is_truthy, if◌then◌else◌, ◌==◌,
}
use campus_compile.Storage.{Storage, get_item, clear}

-- The `Authorization` header of a request.
unfoldable pub on_request : Storage → Option String
on_request storage =
    let token = get_item "token" storage in
    if is_truthy token then some (template ("Bearer " ∷ text_or token "" ∷ [])) else none

-- An error response; a missing field of its data is `none`, and `retry_in` is a number.
pub record Response : Type 0 where
  pub status : ℕ
  pub error : Option String
  pub retry_in : Option ℕ
  pub retry_after : Option String

-- `data.retry_in || headers['retry-after']` as it is printed, `none` when it is falsy: a number
-- gives way when it is 0, a text when it is empty.
unfoldable pub retry_text : Response → Option String
retry_text r =
    let header = if is_truthy r.retry_after then r.retry_after else none in
    elim (r.retry_in) [
      | none ↦ header
      | some seconds ↦ if seconds == 0 then header else some (decimal seconds)
    ]

-- What the interceptor leaves: localStorage, where the browser is sent, and `customMessage`.
pub record Outcome : Type 0 where
  pub storage : Storage
  pub location : Option String
  pub custom_message : Option String

unfoldable pub on_error : Option Response → Storage → Outcome
on_error none storage = record {
  storage = storage;
  location = none;
  custom_message = some "Network Error: Cannot connect to the Arena servers.";
}
on_error (some r) storage =
    if r.status == 401
    then record { storage = clear; location = some "/login"; custom_message = none }
    else if r.status == 429
    then record {
      storage = storage;
      location = none;
      custom_message = elim (retry_text r) [
        | some wait ↦
            some (template (text_or r.error "Too many requests." ∷ " Wait " ∷ wait ∷ "s." ∷ []))
        | none ↦ some (text_or r.error "Too many requests. Please slow down.")
      ];
    }
    else if r.status == 503
    then record {
      storage = storage;
      location = none;
      custom_message =
          some (text_or r.error "System temporarily overloaded. Please retry in a moment.");
    }
    else record {
      storage = storage;
      location = none;
      custom_message = some (text_or r.error "An unexpected error occurred.");
    }
