-- ===== src/AddProblem/Screen/Reached.antt =====
-- The pages that the clicks on frontend/src/pages/AddProblem.jsx and the ends of its uploads lead to.
use campus_compile.Base.{
  ℕ, ◌≡◌, ◌≤◌, refl, sym, inl, inr, arith, Bool, true, false, Option, none, some, List, [], ◌∷◌,
  String, length, get_elem?, length-append, any,
}
use campus_compile.View.{View}
use campus_compile.View.Offers.{Offers}
use campus_compile.Problem.{TestCase, is_blank_case, publish_disabled, metadata}
use campus_compile.Problem.Upload.{build_form}
use campus_compile.Problem.Accordion.{
  Accordion, Field, write, blank, toggle_test_case, handle_add_test_case, handle_remove_test_case,
  update_test_case, append_parsed,
}
use campus_compile.Problem.Accordion.Refinement.{length-erase_idx, length-set}
use campus_compile.Problem.Screen
use campus_compile.Problem.Screen.{Msg, on_cases, submit_button}
use campus_compile.AddProblem
use campus_compile.AddProblem.{
  Page, Parsed, Server, upload_batch, create_problem, handle_publish, begin_publish,
  begin_zip_upload, handle_zip_upload, clear_status, reset_form,
}
use campus_compile.AddProblem.Screen.{view, update, can_remove}
use campus_compile.AddProblem.Screen.Ready.{IsOther, view-cases}

abbrev count : Page → ℕ
count p = length p.accordion.test_cases

update_test_case-length :
    (i : ℕ) (f : Field) (a : Accordion)
    → length (update_test_case i f a).test_cases ≡ length a.test_cases
unfolding update_test_case
update_test_case-length i f a = go (get_elem? a.test_cases i) refl
  where
    go :
        (r : Option TestCase)
        → get_elem? a.test_cases i ≡ r
        → length (update_test_case i f a).test_cases ≡ length a.test_cases
    go none e = ground (arith, e)
    go (some tc) e = ground (arith, e, length-set i a.test_cases (write f tc))

on_cases-some :
    (m : Msg) (a : Accordion)
    → 1 ≤ length a.test_cases
    → IsOther (can_remove a) m
    → 1 ≤ length (on_cases m a).test_cases
unfolding on_cases toggle_test_case handle_add_test_case handle_remove_test_case update_test_case
on_cases-some (Screen.write_data c) a n h = n
on_cases-some (Screen.to_step k) a n h = n
on_cases-some (Screen.toggle i) a n h = n
on_cases-some (Screen.remove i) a n h = ground (arith, length-erase_idx i a.test_cases, h)
on_cases-some (Screen.write_case i f) a n h = ground (arith, update_test_case-length i f a, n)
on_cases-some Screen.add a n h = ground (arith, length-append a.test_cases (blank true ∷ []))
on_cases-some Screen.choose_zip a n h = n
on_cases-some Screen.submit a n h = n
on_cases-some Screen.delete a n h = n
on_cases-some Screen.copy a n h = n
on_cases-some Screen.reset a n h = n
on_cases-some Screen.go a n h = n

update-accordion : (m : Msg) (p : Page) → (update m p).accordion ≡ on_cases m p.accordion
unfolding update on_cases
update-accordion (Screen.write_data c) p = refl
update-accordion (Screen.to_step k) p = refl
update-accordion (Screen.toggle i) p = refl
update-accordion (Screen.remove i) p = refl
update-accordion (Screen.write_case i f) p = refl
update-accordion Screen.add p = refl
update-accordion Screen.choose_zip p = refl
update-accordion Screen.submit p = refl
update-accordion Screen.delete p = refl
update-accordion Screen.copy p = refl
update-accordion Screen.reset p = refl
update-accordion Screen.go p = refl

begin_zip_upload-accordion :
    (chosen : Bool) (p : Page) → (begin_zip_upload chosen p).accordion ≡ p.accordion
unfolding begin_zip_upload
begin_zip_upload-accordion true p = refl
begin_zip_upload-accordion false p = refl

handle_publish-accordion :
    (server : Server) (origin : String) (p : Page)
    → (handle_publish server origin p).page.accordion ≡ p.accordion
unfolding handle_publish begin_publish
handle_publish-accordion server origin p = ground arith

unchanged :
    (a : Accordion) → 1 ≤ length a.test_cases → 1 ≤ length (on_cases Screen.submit a).test_cases
unfolding on_cases
unchanged a n = n

-- The last button is enabled when no request runs and no case is blank.
submit_button-lem :
    (name : String) (busy : Bool) (cases : List TestCase) (m : Msg)
    → Offers (submit_button name busy cases) m
    → (m ≡ Screen.submit) × (busy ≡ false) × (any is_blank_case cases ≡ false)
unfolding submit_button publish_disabled Offers
submit_button-lem name busy cases m (inl (enabled, e)) = (sym e, ground arith, ground arith)
submit_button-lem name busy cases m (inr x) = elim x [ ]

module _ (show_time show_memory : Option ℕ → String)
    (read_time read_memory : String → Option ℕ) where
  abbrev pub shown : Page → List (View Msg)
  shown = view show_time show_memory read_time read_memory

  -- The page from its opening on: an offered control that writes the form, the stages of an upload,
  -- a publish, and the reset after it.
  pub data Reached : Page → Type 0 where
    reset : (text : String) (p : Page) → Reached (reset_form text p)
    clicked : (p : Page) (m : Msg) → Reached p → Offers (shown p) m → Reached (update m p)
    began_zip : (p : Page) (chosen : Bool) → Reached p → Reached (begin_zip_upload chosen p)
    unzipped :
        (p : Page) (start : ℕ) (r : Parsed) → Reached p → Reached (handle_zip_upload start r p)
    cleared : (p : Page) → Reached p → Reached (clear_status p)
    publishing : (p : Page) → Reached p → Offers (shown p) Screen.submit → Reached (begin_publish p)
    published :
        (p : Page) (server : Server) (origin : String)
        → Reached p
        → Offers (shown p) Screen.submit
        → Reached (handle_publish server origin p).page

  update-some : (p : Page) (m : Msg) → 1 ≤ count p → Offers (shown p) m → 1 ≤ count (update m p)
  update-some p m n o =
      let kept : 1 ≤ length (on_cases m p.accordion).test_cases =
        elim (view-cases show_time show_memory read_time read_memory p m o) [
          | inl h ↦ on_cases-some m p.accordion n h
          | inr h ↦
              let (e, _, _) = submit_button-lem _ p.is_submitting p.accordion.test_cases m h in
              rw e (unchanged p.accordion n)
        ] in
      rw (update-accordion m p) kept

  Reached-some : {p : Page} → Reached p → 1 ≤ count p
  unfolding reset_form handle_zip_upload append_parsed clear_status begin_publish
  Reached-some (reset text p) = omega arith
  Reached-some (clicked p m r o) = update-some p m (Reached-some r) o
  Reached-some (began_zip p chosen r) = rw (begin_zip_upload-accordion chosen p) (Reached-some r)
  Reached-some (unzipped p start (AddProblem.failed error) r) = Reached-some r
  Reached-some (unzipped p start (AddProblem.cases cs) r) =
      grind (arith, length-append p.accordion.test_cases cs, Reached-some r)
  Reached-some (cleared p r) = Reached-some r
  Reached-some (publishing p r o) = Reached-some r
  Reached-some (published p server origin r o) =
      rw (handle_publish-accordion server origin p) (Reached-some r)

  -- On a page that clicks, uploads and publishes lead to, the publish button is offered only with a
  -- test case and none that is blank; the click then creates the problem and uploads exactly the
  -- cases, and with both answered it shows the success window.
  pub offered-uploads :
      {p : Page} (server : Server) (origin : String)
      → Reached p
      → Offers (shown p) Screen.submit
      → server.create.answered ≡ true
      → server.batch.answered ≡ true
      → (1 ≤ count p)
        × (any is_blank_case p.accordion.test_cases ≡ false)
        × ((handle_publish server origin p).sent
            ≡ upload_batch server.id (build_form 0 p.accordion.test_cases)
              ∷ create_problem (metadata p.problem_data)
              ∷ [])
        × ((handle_publish server origin p).page.show_success_modal ≡ true)
  unfolding handle_publish
  offered-uploads {p} server origin r o created stored =
      let n = Reached-some r in
      elim (view-cases show_time show_memory read_time read_memory p Screen.submit o) [
        | inl h ↦ elim h [ ]
        | inr h ↦
            let (_, _, full) =
              submit_button-lem _ p.is_submitting p.accordion.test_cases Screen.submit h in
            (n, full, ground arith, ground arith)
      ]
