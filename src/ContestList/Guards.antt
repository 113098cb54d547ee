-- ===== src/ContestList/Guards.antt =====
-- Who may enter and configure a contest, and how that agrees with its badge.
use text.Mathlib.TextEquality.{eq_iff}
use campus_compile.Base.{ℕ, ◌≤◌, ◌≡◌, ◌↔◌, ◌⊎◌, Bool, true, false, Option, none, some, arith, refl}
use campus_compile.ContestList.{
  Contest, Viewer, live_now, enter_arena, register_now, registered, locked, entry_guard,
  get_status_badge, can_configure, has_role, is_author, before,
}

-- A student is no administrator.
student-plain :
    (viewer : Option Viewer) → has_role viewer "student" ≡ true → has_role viewer "admin" ≡ false
student-plain none h = refl
student-plain (some v) h =
    ground (arith, eq_iff v.role "student", eq_iff v.role "admin", eq_iff "student" "admin")

-- From the start of a contest on (or with no valid start) everyone enters it. Before it, an
-- administrator and the author enter, any other student is shown whether they are registered, and
-- anyone else finds it locked.
pub entry_by_time :
    (now : ℕ) (viewer : Option Viewer) (r : Bool) (c : Contest)
    → (before now c.start_time ≡ false → entry_guard now viewer r c ≡ enter_arena)
      × (before now c.start_time ≡ true
          → (entry_guard now viewer r c ≡ enter_arena)
            ↔ ((has_role viewer "admin" ≡ true) ⊎ (is_author viewer c ≡ true)))
      × ((entry_guard now viewer r c ≡ register_now) ↔ (
          (r ≡ false)
          × (has_role viewer "student" ≡ true)
          × (before now c.start_time ≡ true)
          × (is_author viewer c ≡ false)))
      × ((entry_guard now viewer r c ≡ registered) ↔ (
          (r ≡ true)
          × (has_role viewer "student" ≡ true)
          × (before now c.start_time ≡ true)
          × (is_author viewer c ≡ false)))
      × ((entry_guard now viewer r c ≡ locked) ↔ (
          (before now c.start_time ≡ true)
          × (has_role viewer "admin" ≡ false)
          × (is_author viewer c ≡ false)
          × (has_role viewer "student" ≡ false)))
unfolding entry_guard
entry_by_time now viewer r c = let plain = student-plain viewer in ground (arith, plain)

-- With valid times, a public contest is live exactly from its start to its end, both included;
-- then everyone enters it and only an administrator configures it.
pub live_guards :
    (now start finish : ℕ) (viewer : Option Viewer) (r : Bool) (c : Contest)
    → c.start_time ≡ some start
    → c.end_time ≡ some finish
    → ((get_status_badge now c ≡ live_now)
        ↔ ((c.is_public ≡ true) × (start ≤ now) × (now ≤ finish)))
      × (get_status_badge now c ≡ live_now
          → (entry_guard now viewer r c ≡ enter_arena)
            × (can_configure now viewer c ≡ has_role viewer "admin"))
unfolding entry_guard get_status_badge can_configure
live_guards now start finish viewer r c s f = ground arith
