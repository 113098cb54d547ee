-- ===== src/EditProblem/Saving.antt =====
-- What the server holds when the save handler is done, against what the page says.
use campus_compile.Base.{false, List, ◌≡◌, ◌⊎◌, arith}
use campus_compile.Problem.{ProblemData, metadata, TestCase}
use campus_compile.Problem.Upload.{build_form}
use campus_compile.AddProblem.Outcome.{IsHonest}
use campus_compile.EditProblem.{
  Server, Remote, handle_save_changes, draft, saved, drafted, not_drafted,
}

module _ (server : Server) (d : ProblemData) (cases : List TestCase) (remote : Remote) where
  -- When answers tell the truth: if the page says that the changes are saved, the server holds the
  -- form's metadata with exactly the form's test cases; if it says that the problem was forced into a
  -- draft, the server holds the form's metadata but for the visibility, which is not public. These,
  -- and the error that both failed, are the only ends.
  pub save_outcome :
      IsHonest server.update
      → IsHonest server.wipe
      → IsHonest server.batch
      → IsHonest server.fallback
      → ((handle_save_changes server d cases remote).status ≡ saved
          × ((handle_save_changes server d cases remote).remote
              ≡ record { meta = metadata d; tests = build_form 0 cases }))
        ⊎ (((handle_save_changes server d cases remote).status ≡ drafted
              × ((handle_save_changes server d cases remote).remote.meta
                  ≡ record (metadata d) { is_public = false }))
            ⊎ ((handle_save_changes server d cases remote).status ≡ not_drafted))
  unfolding handle_save_changes build_form draft
  save_outcome update wipe batch fallback = ground arith
