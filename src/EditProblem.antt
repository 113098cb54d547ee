-- ===== src/EditProblem.antt =====
-- Loading, saving and deleting a problem: frontend/src/pages/EditProblem.jsx. The server is as in
-- AddProblem: what it held, and how it answered each request.
pub mod Loading
pub mod Cases
pub mod Saving
pub mod Screen
use mathlib.Core.Bool.{cond}
use mathlib.Core.Option
use campus_compile.Base.{
  ℕ, ◌*◌, Bool, true, false, Option, none, some, List, [], ◌∷◌, ◌&&◌, not, String, str_eq,
  or_default, or_text, text_or, to_lower, map, if◌then◌else◌,
}
use campus_compile.Session.{Claims}
use campus_compile.Problem.{ProblemData, Metadata, metadata, Status, TestCase}
use campus_compile.Problem.Upload.{Entry, build_form}
use campus_compile.AddProblem.{Reply}

-- The page's user: `decoded.user_id || decoded.sub`.
pub record Editor : Type 0 where
  pub id : Option String
  pub role : Option String

unfoldable pub editor_of : Claims → Editor
editor_of c = record { id = or_text c.user_id c.sub; role = Option.map to_lower c.role }

-- A problem as the server sends it; a field that is null is `none`.
pub record Problem : Type 0 where
  pub author_id : String
  pub title : String
  pub description : String
  pub difficulty : String
  pub time_limit_ms : Option ℕ
  pub memory_limit_kb : Option ℕ
  pub is_public : Option Bool

pub record StoredCase : Type 0 where
  pub input_data : Option String
  pub expected_output : Option String
  pub is_hidden : Option Bool

abbrev pub same : Option String → String → Bool
same none s = false
same (some t) s = str_eq t s

-- Whether the page sends the user away: not an administrator and not the author.
unfoldable pub is_sent_away : Editor → Problem → Bool
is_sent_away user p = not (same user.role "admin") && not (same user.id p.author_id)

-- A null divided by 1024 is 0. A null time limit is empty, as one that is not a number.
unfoldable pub load_data : Problem → ProblemData
load_data p = record {
  title = p.title;
  description = p.description;
  difficulty = p.difficulty;
  time_limit = p.time_limit_ms;
  memory_limit = some (or_default p.memory_limit_kb 0);
  is_public = or_default p.is_public false;
}

unfoldable pub normalize : StoredCase → TestCase
normalize tc = record {
  input = text_or tc.input_data "";
  expected_output = text_or tc.expected_output "";
  is_hidden = or_default tc.is_hidden true;
}

unfoldable pub load_cases : Option (List StoredCase) → List TestCase
load_cases cases = map normalize (or_default cases [])

-- What the server holds of the problem.
pub record Remote : Type 0 where
  pub meta : Metadata
  pub tests : List Entry

pub record Server : Type 0 where
  pub update : Reply
  pub wipe : Reply
  pub batch : Reply
  pub fallback : Reply

pub data Request : Type 0 where
  update_problem : Metadata → Request
  wipe_test_cases : Request
  upload_batch : List Entry → Request

abbrev pub saved : Status
saved = record { type = "success"; message = "Changes saved and streamed to MinIO! 🎉" }

abbrev pub drafted : Status
drafted = record {
  type = "error";
  message =
      "Network error during batch upload! The problem has been forced into a private Draft without test cases to prevent students from accessing a broken problem.";
}

abbrev pub not_drafted : Status
not_drafted = record {
  type = "error";
  message = "CRITICAL ERROR: Upload failed and automatic draft fallback failed.";
}

pub record Run : Type 0 where
  pub status : Status
  pub is_submitting : Bool
  pub remote : Remote
  pub sent : List Request

-- The metadata of the private draft that the fallback forces.
unfoldable pub draft : ProblemData → Metadata
unfolding metadata
draft d = record (metadata d) { is_public = false }

module _ (server : Server) (d : ProblemData) (cases : List TestCase) where
  abbrev finish : Status → Remote → List Request → Run
  finish status remote sent = record {
    status = status;
    is_submitting = false;
    remote = remote;
    sent = sent;
  }

  -- The compensating action of the `catch` block.
  fall_back : Remote → List Request → Run
  fall_back remote sent =
      let remote' = cond server.fallback.applied (record remote { meta = draft d }) remote in
      finish (cond server.fallback.answered drafted not_drafted) remote'
        (update_problem (draft d) ∷ sent)

  upload : Remote → List Request → Run
  upload remote sent =
      let form = build_form 0 cases in
      let remote' = cond server.batch.applied (record remote { tests = form }) remote in
      cond server.batch.answered (finish saved remote' (upload_batch form ∷ sent))
        (fall_back remote' (upload_batch form ∷ sent))

  wipe : Remote → List Request → Run
  wipe remote sent =
      let remote' = cond server.wipe.applied (record remote { tests = [] }) remote in
      let sent' = wipe_test_cases ∷ sent in
      cond server.wipe.answered
        (elim cases [ [] ↦ finish saved remote' sent' | tc ∷ tcs ↦ upload remote' sent' ])
        (fall_back remote' sent')

  -- The requests sent are listed last first.
  unfoldable pub handle_save_changes : Remote → Run
  unfolding fall_back upload wipe
  handle_save_changes remote =
      let remote' = cond server.update.applied (record remote { meta = metadata d }) remote in
      let sent = update_problem (metadata d) ∷ [] in
      cond server.update.answered (wipe remote' sent) (fall_back remote' sent)

-- Deleting: where the page goes, or the error that it shows. `none` without confirmation.
pub data Deleted : Type 0 where
  gone : Deleted
  kept : Status → Deleted

unfoldable pub handle_delete : Bool → Bool → Option String → Option Deleted
handle_delete confirmed answered reason =
    if confirmed
    then some (
        if answered
        then gone
        else kept (record { type = "error"; message = text_or reason "Failed to delete problem." }))
    else none
