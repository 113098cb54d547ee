-- ===== src/ContestList/AsView.antt =====
-- The contest list is a paged page.
use campus_compile.Base.{ℕ, Option, none, some, arith, ◌≡◌, refl}
use campus_compile.Paging.{prev, next, rewind}
use campus_compile.Paging.View.{PagedView, asked}
use campus_compile.ContestList.{
  ContestList, Contest, Viewer, limit, initial, fetch_contests, on_response, on_error, on_debounce,
  turn, handle_prev, handle_next,
}

pub turn_lem :
    (o : Option ℕ) (s : ContestList)
    → ((turn o s).0.contests ≡ s.contests) × (asked (turn o s).1 ≡ o)
unfolding turn fetch_contests
turn_lem none s = (refl, refl)
turn_lem (some o) s = (ground arith, refl)

pub debounce_lem :
    (s : ContestList)
    → ((on_debounce s).0.contests ≡ rewind s.contests) × ((on_debounce s).1.offset ≡ 0)
unfolding on_debounce
debounce_lem s = (refl, refl)

-- The interface's operations are the contest list's handlers.
unfoldable pub as_view : Option Viewer → PagedView Contest
unfolding initial on_response on_error handle_prev handle_next
as_view viewer = record {
  State = ContestList;
  limit = limit;
  pager = λ s. s.contests;
  initial = initial viewer;
  on_debounce = on_debounce;
  handle_prev = handle_prev;
  handle_next = handle_next;
  on_response = on_response;
  on_error = on_error;
  initial_lem = refl;
  debounce_lem = debounce_lem;
  prev_lem = λ s. turn_lem (prev limit s.contests) s;
  next_lem = λ s. turn_lem (next limit s.contests) s;
  response_lem = λ o rows s. refl;
  error_lem = λ s. refl;
}
