-- ===== src/ProblemList/AsView.antt =====
-- The problem list is a paged page.
use campus_compile.Base.{ℕ, Option, none, some, arith, ◌≡◌, refl}
use campus_compile.Paging.{prev, next, rewind}
use campus_compile.Paging.View.{PagedView, asked}
use campus_compile.ProblemList.{
  ProblemList, limit, initial, fetch_problems, on_response, on_error, on_debounce, turn,
  handle_prev, handle_next,
}

module _ {A : Type 0} where
  pub turn_lem :
      (o : Option ℕ) (s : ProblemList A)
      → ((turn o s).0.problems ≡ s.problems) × (asked (turn o s).1 ≡ o)
  unfolding turn fetch_problems
  turn_lem none s = (refl, refl)
  turn_lem (some o) s = (ground arith, refl)

  pub debounce_lem :
      (s : ProblemList A)
      → ((on_debounce s).0.problems ≡ rewind s.problems) × ((on_debounce s).1.offset ≡ 0)
  unfolding on_debounce
  debounce_lem s = (refl, refl)

-- The interface's operations are the problem list's handlers.
unfoldable pub as_view : (A : Type 0) → PagedView A
unfolding on_response on_error handle_prev handle_next
as_view A = record {
  State = ProblemList A;
  limit = limit;
  pager = λ s. s.problems;
  initial = initial;
  on_debounce = on_debounce;
  handle_prev = handle_prev;
  handle_next = handle_next;
  on_response = on_response;
  on_error = on_error;
  initial_lem = refl;
  debounce_lem = debounce_lem;
  prev_lem = λ s. turn_lem (prev limit s.problems) s;
  next_lem = λ s. turn_lem (next limit s.problems) s;
  response_lem = λ o rows s. refl;
  error_lem = λ s. refl;
}
