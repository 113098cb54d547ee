-- ===== src/AddProblem.antt =====
-- Publishing a new problem: frontend/src/pages/AddProblem.jsx. The server is what it held and how it
-- answered: `applied` says that a request took effect, `answered` that its success came back; a
-- failure is a request that was not answered. The list of requests is what the page sent.
pub mod Outcome
pub mod Screen
use mathlib.Core.Bool.{cond}
use mathlib.Core.Option
use campus_compile.Base.{
  ℕ, Bool, true, false, Option, none, some, List, [], ◌∷◌, ◌||◌, String, str_eq, template, decimal,
  text_or, is_truthy, length, to_lower, one_of, if◌then◌else◌,
}
use campus_compile.Session.{Claims}
use campus_compile.Problem.{
  ProblemData, Metadata, metadata, Status, no_status, TestCase, default_data,
}
use campus_compile.Problem.Upload.{Entry, build_form}
use campus_compile.Problem.Accordion.{Accordion, append_parsed, new_form}

pub record Page : Type 0 where
  pub step : ℕ
  pub status : Status
  pub is_submitting : Bool
  pub show_success_modal : Bool
  pub published_url : String
  pub problem_data : ProblemData
  pub accordion : Accordion

unfoldable pub reset_form : String → Page → Page
reset_form default_description p = record p {
  problem_data = default_data default_description;
  accordion = new_form;
  status = no_status;
  show_success_modal = false;
  step = 1;
}

-- Whether the visitor may use the page, by the token in localStorage; `none` sends to the login page.
unfoldable pub is_authorized : (String → Option Claims) → Option String → Option Bool
is_authorized decode token =
    if is_truthy token
    then elim (Option.bind token decode) [
      | none ↦ some false
      | some c ↦ some (elim (c.role) [
        | none ↦ false
        | some role ↦ one_of (to_lower role) ("admin" ∷ "professor" ∷ [])
      ])
    ]
    else none

pub data Request : Type 0 where
  create_problem : Metadata → Request
  upload_batch : String → List Entry → Request
  delete_problem : String → Request

-- What the server holds of the new problem.
pub data Remote : Type 0 where
  absent : Remote
  stored : Metadata → List Entry → Remote

pub record Reply : Type 0 where
  pub applied : Bool
  pub answered : Bool

-- The server's behaviour for one run: `id` is the identifier that the creation gave, `reason` and
-- `batch_reason` the error texts that a refused creation or upload carried.
pub record Server : Type 0 where
  pub create : Reply
  pub id : String
  pub reason : Option String
  pub batch : Reply
  pub batch_reason : Option String
  pub delete : Reply

abbrev pub apply : Reply → Remote → Remote → Remote
apply r new old = cond r.applied new old

abbrev pub published : Status
published = record { type = "success"; message = "Problem published securely to MinIO! 🎉" }

abbrev pub rolled_back : Status
rolled_back = record {
  type = "error";
  message =
      "Network error during batch upload. The problem creation was aborted and safely rolled back.";
}

abbrev pub orphaned : String → Status
orphaned id = record {
  type = "error";
  message =
      template
        ("CRITICAL ERROR: Upload failed, and rollback failed! Orphaned Problem ID: " ∷ id ∷ []);
}

abbrev pub refused : Option String → Status
refused reason = record {
  type = "error";
  message = text_or reason "Failed to create problem metadata.";
}

pub record Run : Type 0 where
  pub page : Page
  pub remote : Remote
  pub sent : List Request

-- What the handler writes before its first request.
unfoldable pub begin_publish : Page → Page
begin_publish p = record p {
  is_submitting = true;
  status = record { type = "info"; message = "Forging problem and syncing test cases to S3... 🚀" };
}

module _ (server : Server) (origin : String) (p : Page) where
  succeed : Remote → List Request → Run
  succeed remote sent = record {
    page = record (begin_publish p) {
      status = published;
      published_url = template (origin ∷ "/arena/" ∷ server.id ∷ []);
      show_success_modal = true;
      is_submitting = false;
    };
    remote = remote;
    sent = sent;
  }

  fail : Status → Remote → List Request → Run
  fail status remote sent = record {
    page = record (begin_publish p) { status = status; is_submitting = false };
    remote = remote;
    sent = sent;
  }

  -- The compensating action of the `catch` block.
  roll_back : Remote → List Request → Run
  roll_back remote sent =
      let sent' = delete_problem server.id ∷ sent in
      cond (is_truthy (some server.id))
        (cond server.delete.answered (fail rolled_back (apply server.delete absent remote) sent')
          (fail (orphaned server.id) (apply server.delete absent remote) sent'))
        (fail (refused server.batch_reason) remote sent)

  upload : List Entry → Remote → List Request → Run
  upload form remote sent =
      let remote' = apply server.batch (stored (metadata p.problem_data) form) remote in
      let sent' = upload_batch server.id form ∷ sent in
      cond server.batch.answered (succeed remote' sent') (roll_back remote' sent')

  -- The requests sent are listed last first.
  unfoldable pub handle_publish : Run
  unfolding succeed fail roll_back upload begin_publish
  handle_publish =
      let form = build_form 0 p.accordion.test_cases in
      let created = apply server.create (stored (metadata p.problem_data) []) absent in
      let sent = create_problem (metadata p.problem_data) ∷ [] in
      cond server.create.answered
        (elim (p.accordion.test_cases) [
          | [] ↦ succeed created sent
          | tc ∷ tcs ↦ upload form created sent
        ])
        (fail (refused server.reason) created sent)

-- The end of a ZIP upload: the error or the cases that the parser returned, and how many cases the
-- page held when the upload began.
pub data Parsed : Type 0 where
  failed : String → Parsed
  cases : List TestCase → Parsed

-- What a chosen file writes before its extraction; with no file nothing happens.
unfoldable pub begin_zip_upload : Bool → Page → Page
begin_zip_upload chosen p =
    if chosen
    then record p {
      status = record { type = "info"; message = "Extracting test cases from ZIP..." };
    }
    else p

-- The timer that a successful upload starts.
unfoldable pub clear_status : Page → Page
clear_status p = record p { status = no_status }

unfoldable pub handle_zip_upload : ℕ → Parsed → Page → Page
handle_zip_upload starting_index (failed error) p = record p {
  status = record { type = "error"; message = error };
}
handle_zip_upload starting_index (cases parsed) p = record p {
  accordion = append_parsed starting_index parsed p.accordion;
  status = record {
    type = "success";
    message = template ("Successfully appended " ∷ decimal (length parsed) ∷ " test cases!" ∷ []);
  };
}
