-- ===== src/EditContest/Times.antt =====
-- What a load and a submission do to a contest's times.
use campus_compile.Base.{ℕ, ◌*◌, ◌≤◌, ◌≡◌, ◌↔◌, refl, some, List, arith}
use campus_compile.ContestForm.{Form, Page, submission, send}
use campus_compile.EditContest.{Contest, Assigned, Zone, load_contest, format_for_input}

shift_iff :
    (zone : Zone) (minute : ℕ)
    → zone.ahead ≤ minute * 60000
    → (format_for_input zone (some (minute * 60000)) ≡ some (minute * 60000))
      ↔ (zone.ahead ≡ zone.behind)
unfolding format_for_input
shift_iff zone minute early = ground arith

-- Loading a contest with valid times that starts on a whole minute, and submitting the form as it
-- is, sends the form, and with the same start exactly when the browser's zone is as much ahead of
-- UTC as behind it, that is UTC itself: in any other zone the start moves. (The start is no earlier
-- after 1970 than the zone is ahead.)
pub unchanged_iff :
    (zone : Zone) (contest : Contest) (assigned : List Assigned) (s : Page) (minute finish : ℕ)
    → contest.start_time ≡ some (minute * 60000)
    → contest.end_time ≡ some finish
    → zone.ahead ≤ minute * 60000
    → (f : Form) × (submission (load_contest zone contest assigned s).form_data ≡ send f)
      × ((f.start_time ≡ some (minute * 60000)) ↔ (zone.ahead ≡ zone.behind))
unfolding submission load_contest format_for_input
unchanged_iff zone contest assigned s minute finish start end early =
    rw (start, end)
      (
        (load_contest zone
            (record contest { start_time = some (minute * 60000); end_time = some finish }) assigned
            s).form_data,
        refl,
        shift_iff zone minute early,
      )
