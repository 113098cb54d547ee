-- ===== src/AddContest/AsView.antt =====
-- The picker of a new contest is a paged page.
use campus_compile.Base.{ℕ, Option, none, some, ◌≡◌, refl}
use campus_compile.Paging.{prev, next, rewind}
use campus_compile.Paging.View.{PagedView, asked}
use campus_compile.AddContest.{limit, initial}
use campus_compile.ContestForm.{
  Page, Row, load_problems, on_problems, on_problems_error, on_debounce, turn, handle_prev_problems,
  handle_next_problems,
}

pub turn_lem :
    (o : Option ℕ) (s : Page)
    → ((turn limit o s).0.available_problems ≡ s.available_problems)
      × (asked (turn limit o s).1 ≡ o)
unfolding turn load_problems
turn_lem none s = (refl, refl)
turn_lem (some o) s = (refl, refl)

pub debounce_lem :
    (s : Page)
    → ((on_debounce limit s).0.available_problems ≡ rewind s.available_problems)
      × ((on_debounce limit s).1.offset ≡ 0)
unfolding on_debounce
debounce_lem s = (refl, refl)

-- The interface's operations are the picker's handlers on the third step.
unfoldable pub as_view : PagedView Row
unfolding on_problems on_problems_error handle_prev_problems handle_next_problems
as_view = record {
  State = Page;
  limit = limit;
  pager = λ s. s.available_problems;
  initial = initial;
  on_debounce = on_debounce limit;
  handle_prev = handle_prev_problems limit;
  handle_next = handle_next_problems limit;
  on_response = on_problems limit;
  on_error = on_problems_error;
  initial_lem = refl;
  debounce_lem = debounce_lem;
  prev_lem = λ s. turn_lem (prev limit s.available_problems) s;
  next_lem = λ s. turn_lem (next limit s.available_problems) s;
  response_lem = λ o rows s. refl;
  error_lem = λ s. refl;
}
