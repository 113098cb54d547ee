-- ===== src/EditContest/Loaded.antt =====
-- What the page of an existing contest shows as selected, from its load on.
use campus_compile.Base.{true, List, [], ◌∷◌, ◌||◌, map, String, str_eq, ◌≡◌, refl, ap, sym, ◌∙◌}
use campus_compile.ContestForm.{Page, is_selected, is_cached}
use campus_compile.ContestForm.Selection.{IsShown, Edit, run, run-IsShown}
use campus_compile.EditContest.{Zone, Contest, Assigned, load_contest, points_or}

loaded_same :
    (id : String) (assigned : List Assigned)
    → is_selected id (
        map
          (λ p. record { problem_id = p.row.problem_id; points_value = points_or p.points_value })
          assigned)
      ≡ is_cached id (map (λ p. p.row) assigned)
loaded_same id [] = refl
loaded_same id (p ∷ ps) = ap (str_eq p.row.problem_id id ||◌) (loaded_same id ps)

load_contest-IsShown :
    (zone : Zone) (contest : Contest) (assigned : List Assigned) (s : Page)
    → IsShown (load_contest zone contest assigned s)
unfolding IsShown load_contest
load_contest-IsShown zone contest assigned s = λ id h. sym (loaded_same id assigned) ∙ h

-- After the load of any contest with any assigned problems, and any edits, each selected problem is
-- in the cache from which the page shows the selected ones.
pub loaded_shown :
    (zone : Zone) (contest : Contest) (assigned : List Assigned) (s : Page) (edits : List Edit)
    (id : String)
    → is_selected id (run (load_contest zone contest assigned s) edits).form_data.problems ≡ true
    → is_cached id (run (load_contest zone contest assigned s) edits).assigned_cache ≡ true
unfolding IsShown
loaded_shown zone contest assigned s edits =
    run-IsShown (load_contest zone contest assigned s) edits
      (load_contest-IsShown zone contest assigned s)
