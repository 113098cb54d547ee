-- ===== src/Paging/View.antt =====
-- The interface of a paged page: its handlers, and what each does to the pager and asks of the
-- server. ProblemList, ContestList and AddContest fill it.
-- A user's clicks and the server's answers come in any order; answers may come late.
pub mod Alignment
pub mod Buttons
use campus_compile.Base.{ℕ, ◌*◌, ◌≡◌, Option, none, some, List, [], ◌∷◌, ◌++◌, String}
use mathlib.Core.Option
use campus_compile.Paging.{Pager, receive, prev, next, rewind, fresh}

-- A request for one page of a list.
pub record Query : Type 0 where
  pub endpoint : String
  pub limit : ℕ
  pub offset : ℕ
  pub search : String
  pub view_mode : Option String

abbrev pub asked : Option Query → Option ℕ
asked = Option.map (λ q. q.offset)

pub record PagedView (A : Type 0) : Type 1 where
  pub State : Type 0
  pub limit : ℕ
  pub pager : State → Pager A
  pub initial : State
  pub on_debounce : State → State × Query
  pub handle_prev : State → State × Option Query
  pub handle_next : State → State × Option Query
  pub on_response : ℕ → Option (List A) → State → State
  pub on_error : State → State
  pub initial_lem : pager initial ≡ fresh
  pub debounce_lem :
      (s : State) → (pager (on_debounce s).0 ≡ rewind (pager s)) × ((on_debounce s).1.offset ≡ 0)
  pub prev_lem :
      (s : State)
      → (pager (handle_prev s).0 ≡ pager s) × (asked (handle_prev s).1 ≡ prev limit (pager s))
  pub next_lem :
      (s : State)
      → (pager (handle_next s).0 ≡ pager s) × (asked (handle_next s).1 ≡ next limit (pager s))
  pub response_lem :
      (o : ℕ) (rows : Option (List A)) (s : State)
      → pager (on_response o rows s) ≡ receive limit o rows (pager s)
  pub error_lem : (s : State) → pager (on_error s) ≡ pager s

abbrev pub push_asked : Option ℕ → List ℕ → List ℕ
push_asked none os = os
push_asked (some o) os = o ∷ os

module _ {A : Type 0} (v : PagedView A) where
  open v use {
    State, limit, pager, initial, on_debounce, handle_prev, handle_next, on_response, on_error,
  }

  -- A page's state, and the offsets of its requests under way.
  pub data Reach : State → List ℕ → Type 0 where
    start : Reach initial []
    debounced :
        {s : State} {os : List ℕ}
        → Reach s os
        → Reach (on_debounce s).0 ((on_debounce s).1.offset ∷ os)
    prev_pressed :
        {s : State} {os : List ℕ}
        → Reach s os
        → Reach (handle_prev s).0 (push_asked (asked (handle_prev s).1) os)
    next_pressed :
        {s : State} {os : List ℕ}
        → Reach s os
        → Reach (handle_next s).0 (push_asked (asked (handle_next s).1) os)
    answered :
        {s : State} (o : ℕ) (rows : Option (List A)) (before after : List ℕ)
        → Reach s (before ++ o ∷ after)
        → Reach (on_response o rows s) (before ++ after)
    failed :
        {s : State} (o : ℕ) (before after : List ℕ)
        → Reach s (before ++ o ∷ after)
        → Reach (on_error s) (before ++ after)

  -- A page's offset is a whole number of pages.
  abbrev pub IsAligned : ℕ → Type 0
  IsAligned o = (k : ℕ) × (o ≡ k * limit)
