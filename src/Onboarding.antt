-- ===== src/Onboarding.antt =====
-- The onboarding page: frontend/src/pages/Onboarding.jsx. The year that the page reads from the clock
-- and the server's answer are given.
pub mod Completion
pub mod Screen
use mathlib.Core.Option
use campus_compile.Base.{
  ℕ, ◌+◌, Bool, true, false, Option, none, some, List, [], ◌∷◌, String, is_truthy, text_or,
  if◌then◌else◌, decimal, map,
}
use campus_compile.Storage.{Storage, get_item, set_item}

pub record Profile : Type 0 where
  pub username : String
  pub course : String
  pub department : String
  pub graduation_year : Option ℕ
  pub batch : String
  pub section : String
  pub student_group : String

pub record Onboarding : Type 0 where
  pub error : String
  pub is_loading : Bool
  pub form_data : Profile

-- The years offered, with their labels.
unfoldable pub grad_year_options : ℕ → List (ℕ × String)
grad_year_options year = map (λ k. (year + k, decimal (year + k))) (0 ∷ 1 ∷ 2 ∷ 3 ∷ 4 ∷ [])

unfoldable pub initial : ℕ → Onboarding
initial year = record {
  error = "";
  is_loading = false;
  form_data = record {
    username = "";
    course = "B.Tech";
    department = "CSE";
    graduation_year = some (year + 3);
    batch = "1";
    section = "1";
    student_group = "1";
  };
}

-- Where the effect sends a visitor, if anywhere.
unfoldable pub guard : Storage → Option String
guard storage = if is_truthy (get_item "token" storage) then none else some "/login"

-- The inputs' fields.
pub data Field : Type 0 where
  username course department batch section student_group : String → Field
  graduation_year : Option ℕ → Field

unfoldable pub handle_change : Field → Onboarding → Onboarding
handle_change (username s) o = record o { form_data = record o.form_data { username = s } }
handle_change (course s) o = record o { form_data = record o.form_data { course = s } }
handle_change (department s) o = record o { form_data = record o.form_data { department = s } }
handle_change (batch s) o = record o { form_data = record o.form_data { batch = s } }
handle_change (section s) o = record o { form_data = record o.form_data { section = s } }
handle_change (student_group s) o = record o {
  form_data = record o.form_data { student_group = s };
}
handle_change (graduation_year y) o = record o {
  form_data = record o.form_data { graduation_year = y };
}

-- The answer: the new token and role, or the error text that a refusal carried.
pub data Answer : Type 0 where
  onboarded : Option String → Option String → Answer
  refused : Option String → Answer

-- The state, localStorage, and the path that the timer loads, if any.
unfoldable pub handle_submit :
    Answer → Onboarding → Storage → Onboarding × (Storage × Option String)
handle_submit (onboarded token role) o storage =
    if is_truthy token
    then (
      record o { is_loading = false },
      (
        set_item "role" (text_or role "student") (set_item "token" (text_or token "") storage),
        some "/problems",
      ),
    )
    else (record o { is_loading = false }, (storage, none))
handle_submit (refused reason) o storage = (
  record o { is_loading = false; error = text_or reason "Failed to save profile." },
  (storage, none),
)
