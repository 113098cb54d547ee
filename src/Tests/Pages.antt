-- ===== src/Tests/Pages.antt =====
-- Concrete pages: the paging of the lists, and the editor's engine.
use campus_compile.Base.{
  ◌≡◌, refl, true, false, none, some, List, [], ◌∷◌, String, ℕ, ◌++◌, inl, inr, arith,
  if◌then◌else◌,
}
use campus_compile.Paging.{Pager, fresh, rewind, receive}
use campus_compile.Paging.Walk.{browse, browse-all}
use campus_compile.Paging.View.{PagedView, start, debounced, answered}
use campus_compile.Paging.View.Buttons.{pressed, pressed-some, to_next}
use campus_compile.View.Offers.{Offers}
use campus_compile.ProblemList.{on_debounce, on_response}
use campus_compile.ProblemList.AsView.{as_view}
use campus_compile.Engine.{
  Engine, submission, run_code, Message, draft, draft_key, lookup_draft, load_draft, save_draft,
  boilerplates, cpp_template, unmount, get_history, remove_draft,
}
use campus_compile.Engine.Machine.{
  broken, accepted, message, submit, step, run_events, IsSafe, opened,
}
use campus_compile.Engine.Machine.Safety.{run_events-IsSafe}
use campus_compile.Engine.Drafts.{load_draft-save_draft, load-save_mismatch}
use campus_compile.Engine.Verdicts.{messages, verdict_outcome, unmount-accepted, is_accepted}

abbrev letters : List String
letters = "a" ∷ "b" ∷ "c" ∷ []

browse-all_example : browse 2 letters 2 0 ≡ some letters
browse-all_example = browse-all 2 letters 1 (omega arith) (omega arith)

abbrev twelve : List String
twelve = letters ++ letters ++ letters ++ letters

abbrev full_page : Pager String
full_page = record { rows = letters; offset = 3; has_more = true }

abbrev list_view : PagedView String
list_view = as_view String

abbrev full_answer : List String
full_answer = twelve ++ twelve ++ "z" ∷ []

-- The problem list after its first answer, a full page.
abbrev answered_list : list_view.State
answered_list =
    list_view.on_response 0 (some full_answer) (list_view.on_debounce list_view.initial).0

pressed-some_example : (o : ℕ) × (pressed list_view to_next answered_list ≡ some o)
unfolding as_view on_debounce rewind on_response receive Offers
pressed-some_example =
    pressed-some list_view to_next (answered 0 (some full_answer) [] [] (debounced start))
      (inr (inl (refl, refl)))

abbrev idle : Engine
idle = record {
  problem_id = "7";
  contest_id = none;
  user_id = some "u";
  problem = none;
  code = "x = 1";
  language = "python";
  submit_status = "";
  history = fresh;
  is_console_open = false;
  active_tab = "input";
  custom_input = "";
  console_output = "";
  is_processing = false;
  streams = [];
  pending = [];
  drafts = [];
  sent = [];
}

idle-IsSafe : IsSafe idle
idle-IsSafe = record { under_way = refl; current = tt }

run_events-IsSafe_example : IsSafe (run_events idle (submit ∷ accepted ∷ []))
run_events-IsSafe_example = run_events-IsSafe idle (submit ∷ accepted ∷ []) idle-IsSafe

abbrev running : Engine
running = record idle {
  is_processing = true;
  streams = record { kind = submission (some "k"); is_open = true } ∷ [];
  drafts = ("k", draft "python" "x") ∷ [];
}

abbrev verdict : Message
verdict = record { status = "AC"; message = none; output = none }

verdict_outcome_example :
    let e' = step running (message 0 verdict) in
    (e'.is_processing ≡ false)
    × (opened e'.streams ≡ 0)
    × (e'.submit_status ≡ "AC")
    × (e'.sent ≡ get_history 0 ∷ [])
    × (e'.drafts
        ≡ (if is_accepted "AC" then remove_draft (some "k") running.drafts else running.drafts))
verdict_outcome_example =
    verdict_outcome running 0 (record { kind = submission (some "k"); is_open = true }) (some "k")
      verdict (record { under_way = refl; current = refl }) refl refl refl refl

abbrev asked_once : Engine
asked_once = record idle { is_processing = true; pending = run_code ∷ [] }

abbrev running_only : List (ℕ × Message)
running_only = (0, record verdict { status = "Running" }) ∷ []

unmount-accepted_example :
    let left = run_events (step (unmount asked_once) accepted) (messages running_only) in
    (opened left.streams ≡ 1) × (opened (step left (broken 0)).streams ≡ 0)
unmount-accepted_example =
    unmount-accepted asked_once run_code [] running_only (record { under_way = refl; current = tt })
      refl (refl, tt)

load_draft-save_draft_example :
    ((load_draft (record (save_draft idle) { code = ""; language = "cpp" })).code ≡ "x = 1")
    × ((load_draft (record (save_draft idle) { code = ""; language = "cpp" })).language ≡ "python")
unfolding draft_key save_draft boilerplates
load_draft-save_draft_example =
    load_draft-save_draft idle (record (save_draft idle) { code = ""; language = "cpp" })
      "draft_u_7" refl refl refl refl (λ e. cc)

load-save_mismatch_example :
    lookup_draft "draft_u_7" (save_draft (load_draft idle)).drafts
    ≡ some (draft "python" cpp_template)
unfolding draft_key lookup_draft boilerplates
load-save_mismatch_example = load-save_mismatch idle "draft_u_7" refl refl (λ e. cc)
