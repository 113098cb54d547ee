-- ===== src/EditProblem/Loading.antt =====
-- Loading what was saved.
use text.Mathlib.TextEquality.{eq_iff}
use campus_compile.Base.{
  ℕ, or_default, some, ◌≡◌, ◌≢◌, refl, ap, sym, ◌∙◌, arith, String, List, [], ◌∷◌, map, text_or,
  inl, inr,
}
use campus_compile.Problem.{ProblemData, Metadata, metadata, TestCase, Status}
use campus_compile.Problem.Upload.{Entry, get_all, read_cases, read_cases-build_form}
use campus_compile.AddProblem.Outcome.{IsHonest}
use campus_compile.EditProblem.{
  Problem, load_data, StoredCase, normalize, load_cases, Server, Remote, handle_save_changes, saved,
}
use campus_compile.EditProblem.Saving.{save_outcome}

-- The server's view of a problem that was sent as `m`, and of test cases sent as a form. A limit
-- that is not a number is null in the request, and is stored as 0.
abbrev pub serve : String → Metadata → Problem
serve author m = record {
  author_id = author;
  title = m.title;
  description = m.description;
  difficulty = m.difficulty;
  time_limit_ms = some (or_default m.time_limit_ms 0);
  memory_limit_kb = some (or_default m.memory_limit_kb 0);
  is_public = some m.is_public;
}

abbrev pub serve_case : TestCase → StoredCase
serve_case tc = record {
  input_data = some tc.input;
  expected_output = some tc.expected_output;
  is_hidden = some tc.is_hidden;
}

abbrev pub serve_cases : List Entry → List StoredCase
serve_cases form = map serve_case (
    read_cases (get_all "input_files" form) (get_all "expected_files" form)
      (get_all "is_hidden" form))

text_or-some : (s : String) → text_or (some s) "" ≡ s
text_or-some String.[] = refl
text_or-some (String.◌∷◌ c s) = refl

load_cases-serve_case : (tcs : List TestCase) → load_cases (some (map serve_case tcs)) ≡ tcs
unfolding load_cases normalize
load_cases-serve_case [] = refl
load_cases-serve_case (tc ∷ tcs) =
    cc (text_or-some tc.input, text_or-some tc.expected_output, load_cases-serve_case tcs)

-- A problem whose limits are numbers is loaded as it was sent.
loaded :
    (d : ProblemData) (author : String) (time memory : ℕ)
    → d.time_limit ≡ some time
    → d.memory_limit ≡ some memory
    → load_data (serve author (metadata d)) ≡ d
unfolding load_data metadata
loaded d author time memory timed limited =
    let t : some (or_default d.time_limit 0) ≡ d.time_limit = rw timed refl in
    let m : some (or_default d.memory_limit 0) ≡ d.memory_limit = rw limited refl in cc (t, m)

error_ne_success : ◌≢◌ {A = String} "error" "success"
error_ne_success = ground (arith, eq_iff "error" "success")

module _ (server : Server) (d : ProblemData) (cases : List TestCase) (remote : Remote) where
  -- After a save that the page reports as saved, opening the page again shows the same fields and
  -- the same test cases in the same order, when both limits were numbers, answers tell the truth and
  -- the server sends back what it holds, the three arrays of the form read case by case.
  pub load-save :
      (author : String) (time memory : ℕ)
      → d.time_limit ≡ some time
      → d.memory_limit ≡ some memory
      → IsHonest server.update
      → IsHonest server.wipe
      → IsHonest server.batch
      → IsHonest server.fallback
      → (handle_save_changes server d cases remote).status ≡ saved
      → (load_data (serve author (handle_save_changes server d cases remote).remote.meta) ≡ d)
        × (load_cases (some (serve_cases (handle_save_changes server d cases remote).remote.tests))
            ≡ cases)
  unfolding load_data metadata
  load-save author time memory timed limited update wipe batch fallback said =
      elim (save_outcome server d cases remote update wipe batch fallback) [
        | inl (s, held) ↦ rw held (
          loaded d author time memory timed limited,
          rw (read_cases-build_form 0 cases) (load_cases-serve_case cases),
        )
        | inr (inl (s, held)) ↦
            absurd (error_ne_success (ap (λ (x : Status). x.type) (sym s ∙ said)))
        | inr (inr s) ↦ absurd (error_ne_success (ap (λ (x : Status). x.type) (sym s ∙ said)))
      ]
