-- ===== src/Paging/Controls.antt =====
-- The two buttons below a paged list, with the range between them; ProblemList, ContestList,
-- AddContest, EditContest and the submission history show the same.
use campus_compile.Base.{not, List, [], ◌∷◌, ◌==◌, template, decimal, ltb, ◌||◌, Bool}
use campus_compile.Paging.{Pager, display_start, display_end}
use campus_compile.View.{View, label, button}

-- `hasMore || offset > 0`.
abbrev pub has_turns {ℓ} : {A : Type ℓ} → Pager A → Bool
has_turns p = p.has_more || ltb 0 p.offset

abbrev pub turn_buttons {ℓ} : {M : Type 0} {A : Type ℓ} → M → M → Pager A → List (View M)
turn_buttons on_prev on_next p =
    button "← Prev" (p.offset == 0) on_prev
    ∷ label
        (template ("Showing " ∷ decimal (display_start p) ∷ " - " ∷ decimal (display_end p) ∷ []))
    ∷ button "Next →" (not p.has_more) on_next
    ∷ []
