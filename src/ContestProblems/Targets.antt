-- ===== src/ContestProblems/Targets.antt =====
-- Where the links of a contest's problems lead.
use campus_compile.Base.{
  ℕ, ◌+◌, Bool, true, false, some, List, [], ◌∷◌, map, String, ◌≡◌, refl, ap, ltb, template,
  if◌then◌else◌, Bool-cases, inl, inr,
}
use campus_compile.View.{View, label, link, button, checkbox, input, select}
use campus_compile.ContestProblems.{
  ContestProblems, Problem, view, table, rows, target_url, is_contest_over, on_answers,
}

-- The paths of a page's links, in their order.
abbrev pub links : {M : Type 0} → List (View M) → List String
links [] = []
links (link path name ∷ vs) = path ∷ links vs
links (label s ∷ vs) = links vs
links (button name disabled x ∷ vs) = links vs
links (checkbox checked x ∷ vs) = links vs
links (input value disabled f ∷ vs) = links vs
links (select value options disabled f ∷ vs) = links vs

links-rows :
    (over : Bool) (id : String) (index : ℕ) (probs : List Problem)
    → links (rows over id index probs) ≡ map (target_url over id) probs
unfolding rows
links-rows over id index [] = refl
links-rows over id index (prob ∷ probs) =
    ap (λ ps. target_url over id prob ∷ ps) (links-rows over id (index + 1) probs)

links-table :
    (over : Bool) (id : String) (probs : List Problem)
    → links (table over id probs) ≡ map (target_url over id) probs
unfolding table
links-table over id [] = refl
links-table over id (prob ∷ probs) = links-rows over id 0 (prob ∷ probs)

-- Once both answers have come, with the problems and a valid end time, the page links every problem
-- once, in the order of the answer: up to the end to the contest's arena, after it to the practice
-- arena.
pub links-view :
    (now t : ℕ) (id : String) (probs : List Problem) (s : ContestProblems)
    → links (view now id (on_answers (some (some probs, some t)) s))
      ≡ map
          (λ p.
            if ltb t now
            then template ("/arena/" ∷ p.problem_id ∷ [])
            else template ("/contests/" ∷ id ∷ "/problem/" ∷ p.problem_id ∷ []))
          probs
unfolding view on_answers is_contest_over target_url
links-view now t id probs s = elim (Bool-cases (ltb t now)) [
  | inl over ↦ rw over (links-table true id probs)
  | inr live ↦ rw live (links-table false id probs)
]
