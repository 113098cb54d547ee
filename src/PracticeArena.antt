-- ===== src/PracticeArena.antt =====
-- The practice arena: frontend/src/pages/Arena/PracticeArena.jsx.
use campus_compile.Base.{Bool, false, ◌&&◌, ◌||◌, Option, none, some, List, [], ◌∷◌, String, str_eq}
use campus_compile.Engine.{Details}
use campus_compile.View.{View, label}
use campus_compile.Workbench.{Page, Msg, body}

-- The signed-in user, by role and id.
pub record User : Type 0 where
  pub role : String
  pub id : String

unfoldable pub can_edit : Option User → Details → Bool
can_edit none d = false
can_edit (some user) d =
    str_eq user.role "admin" || str_eq user.role "professor" && str_eq user.id d.author_id

unfoldable pub view : Option User → Page → List (View Msg)
unfolding can_edit body
view user p = elim p.engine.problem [
  | none ↦ label "Loading Practice Arena..." ∷ []
  | some d ↦ body (can_edit user d) false d p
]
