-- ===== src/ContestForm/Selection.antt =====
-- The selected problems under clicks and changes of points, and the cache that shows them.
use text.Mathlib.TextEquality.{eq_iff}
use campus_compile.Base.{
  true, false, not, ◌||◌, Option, none, List, [], ◌∷◌, ◌++◌, map, String, str_eq, ◌≡◌, refl, sym,
  ◌∙◌, arith, if◌then◌else◌, or_default, keep_if, Bool-cases, inl, inr,
}
use campus_compile.Base.Int.{ℤ, pos}
use campus_compile.ContestForm.{
  Row, Selected, Page, is_selected, is_cached, toggle_problem, update_points,
}

is_selected-append :
    (id : String) (ps qs : List Selected)
    → is_selected id (ps ++ qs) ≡ is_selected id ps || is_selected id qs
is_selected-append id [] qs = refl
is_selected-append id (p ∷ ps) qs = rw (is_selected-append id ps qs) (ground arith)

is_cached-append :
    (id : String) (ps qs : List Row) → is_cached id (ps ++ qs) ≡ is_cached id ps || is_cached id qs
is_cached-append id [] qs = refl
is_cached-append id (p ∷ ps) qs = rw (is_cached-append id ps qs) (ground arith)

-- A problem that is filtered out is not selected any more, and the others are as before.
is_selected-keep_if :
    (id x : String) (ps : List Selected)
    → is_selected id (keep_if (λ p. not (str_eq p.problem_id x)) ps)
      ≡ (if str_eq x id then false else is_selected id ps)
is_selected-keep_if id x [] = ground arith
is_selected-keep_if id x (p ∷ ps) =
    let rest = is_selected-keep_if id x ps in
    elim (Bool-cases (str_eq p.problem_id x)) [
      | inl t ↦ let e = (eq_iff p.problem_id x).0 t in rw (t, rest, e) (ground arith)
      | inr f ↦
          rw (f, rest)
            (elim (Bool-cases (str_eq x id)) [
              | inl u ↦ let e = (eq_iff x id).0 u in rw (u, ← e, f) refl
              | inr u ↦ rw u refl
            ])
    ]

is_selected-map :
    (id x : String) (points : ℤ) (ps : List Selected)
    → is_selected id
        (map (λ p. if str_eq p.problem_id x then record p { points_value = points } else p) ps)
      ≡ is_selected id ps
is_selected-map id x points [] = refl
is_selected-map id x points (p ∷ ps) =
    rw (is_selected-map id x points ps)
      (elim (Bool-cases (str_eq p.problem_id x)) [ inl t ↦ rw t refl | inr f ↦ rw f refl ])

-- A click on a problem's box flips whether it is selected and changes nothing about the others,
-- whatever the list was; changing a problem's points selects and drops none.
pub toggle_lem :
    (prob : Row) (id : String) (points : Option ℤ) (s : Page)
    → let selected = λ (s : Page). is_selected id s.form_data.problems in
      (selected (toggle_problem prob s)
        ≡ (if str_eq prob.problem_id id then not (selected s) else selected s))
      × (selected (update_points prob.problem_id points s) ≡ selected s)
unfolding toggle_problem update_points
toggle_lem prob id points s =
    let ps = s.form_data.problems in
    (
      elim (Bool-cases (is_selected prob.problem_id ps)) [
        | inl t ↦
            rw (t, is_selected-keep_if id prob.problem_id ps)
              (elim (Bool-cases (str_eq prob.problem_id id)) [
                | inl u ↦ let e = (eq_iff prob.problem_id id).0 u in rw (u, ← e, t) refl
                | inr u ↦ rw u refl
              ])
        | inr f ↦
            rw
              (
                f,
                is_selected-append id ps
                    (record { problem_id = prob.problem_id; points_value = pos 100 } ∷ []),
              )
              (elim (Bool-cases (str_eq prob.problem_id id)) [
                | inl u ↦ let e = (eq_iff prob.problem_id id).0 u in rw (u, ← e, f) refl
                | inr u ↦ rw u (ground arith)
              ])
      ],
      is_selected-map id prob.problem_id (or_default points (pos 0)) ps,
    )

-- The edits of the form's problems.
pub data Edit : Type 0 where
  toggle : Row → Edit
  points : String → Option ℤ → Edit

unfoldable pub edit : Page → Edit → Page
edit s (toggle prob) = toggle_problem prob s
edit s (points id z) = update_points id z s

unfoldable pub run : Page → List Edit → Page
run s [] = s
run s (e ∷ edits) = run (edit s e) edits

-- Every selected problem is in the cache from which the page shows the selected ones.
unfoldable pub IsShown : Page → Type 0
IsShown s =
    (id : String)
    → is_selected id s.form_data.problems ≡ true
    → is_cached id s.assigned_cache ≡ true

cached-toggle :
    (prob : Row) (id : String) (s : Page)
    → is_cached id (toggle_problem prob s).assigned_cache
      ≡ str_eq prob.problem_id id || is_cached id s.assigned_cache
unfolding toggle_problem
cached-toggle prob id s = elim (Bool-cases (is_cached prob.problem_id s.assigned_cache)) [
  | inl t ↦ rw t (elim (Bool-cases (str_eq prob.problem_id id)) [
    | inl u ↦ let e = (eq_iff prob.problem_id id).0 u in rw (u, ← e, t) refl
    | inr u ↦ rw u refl
  ])
  | inr f ↦ rw (f, is_cached-append id s.assigned_cache (prob ∷ [])) (ground arith)
]

edit-IsShown : (s : Page) (e : Edit) → IsShown s → IsShown (edit s e)
unfolding IsShown edit
edit-IsShown s (toggle prob) v = λ id h.
    let (t, _) = toggle_lem prob id none s in
    let c = cached-toggle prob id s in
    let w = v id in
    elim (Bool-cases (str_eq prob.problem_id id)) [
      | inl u ↦ rw (c, u) refl
      | inr u ↦ rw (c, u) (w (ground arith))
    ]
edit-IsShown s (points x z) v = λ id h.
    let (_, t) = toggle_lem (record { problem_id = x; title = ""; difficulty = "" }) id z s in
    unfold update_points in v id (sym t ∙ h)

-- From a page whose selected problems are all in its cache, any edits leave it so.
pub run-IsShown : (s : Page) (edits : List Edit) → IsShown s → IsShown (run s edits)
unfolding run
run-IsShown s [] v = v
run-IsShown s (e ∷ edits) v = run-IsShown (edit s e) edits (edit-IsShown s e v)
