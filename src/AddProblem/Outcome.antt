-- ===== src/AddProblem/Outcome.antt =====
-- What the server holds when the publish handler is done, against what the page says.
use campus_compile.Base.{true, false, some, String, ◌≡◌, ◌⊎◌, arith, is_truthy}
use campus_compile.Problem.{metadata}
use campus_compile.Problem.Upload.{build_form}
use campus_compile.AddProblem.{Page, Server, Reply, handle_publish, absent, stored, orphaned}

-- A success that came back had taken effect.
abbrev pub IsHonest : Reply → Type 0
IsHonest r = r.answered ≡ true → r.applied ≡ true

module _ (server : Server) (origin : String) (p : Page) where
  -- When the modal says that the problem is published, the server holds its metadata with all of its
  -- test cases. When it does not, the server holds nothing of it, or the status names the orphaned
  -- problem, or the answer to the creation was lost.
  pub publish_outcome :
      IsHonest server.create
      → IsHonest server.batch
      → IsHonest server.delete
      → is_truthy (some server.id) ≡ true
      → p.show_success_modal ≡ false
      → ((handle_publish server origin p).page.show_success_modal ≡ true
          → (handle_publish server origin p).remote
            ≡ stored (metadata p.problem_data) (build_form 0 p.accordion.test_cases))
        × ((handle_publish server origin p).page.show_success_modal ≡ false
            → ((handle_publish server origin p).remote ≡ absent)
              ⊎ (((handle_publish server origin p).page.status ≡ orphaned server.id)
                  ⊎ (server.create.answered ≡ false)))
        × ((handle_publish server origin p).page.is_submitting ≡ false)
  unfolding handle_publish build_form
  publish_outcome create batch delete id hidden =
      (λ shown. ground arith, λ closed. ground arith, ground arith)
