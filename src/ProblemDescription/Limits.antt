-- ===== src/ProblemDescription/Limits.antt =====
-- The limits that a problem's page shows, against the limits that its author entered.
use campus_compile.Base.{ℕ, zero, suc, ◌+◌, ◌*◌, ◌/◌, ◌<◌, ◌≡◌, refl, some, arith}
use campus_compile.Problem.{ProblemData, metadata, megabytes}
use campus_compile.ProblemDescription.{display_time, display_mem, multipliers, number_or}

number_or_positive : (n d : ℕ) → 0 < n → number_or (some n) d ≡ n
number_or_positive zero d h = elim h [ ]
number_or_positive (suc n) d h = refl

-- A problem whose author enters a positive memory limit of m megabytes and a positive time limit of
-- t milliseconds shows m megabytes and t milliseconds for C++, twice the time and m and a half of it
-- (rounded up) for Python, and twice both for Java.
pub shown_limits :
    (d : ProblemData) (m t : ℕ)
    → d.memory_limit ≡ some (megabytes (suc m))
    → d.time_limit ≡ some (suc t)
    → let mem = display_mem (metadata d).memory_limit_kb in
      let time = display_time (metadata d).time_limit_ms in
      (mem "cpp" ≡ suc m)
      × (time "cpp" ≡ suc t)
      × (mem "python" ≡ (3 * suc m + 1) / 2)
      × (time "python" ≡ 2 * suc t)
      × (mem "java" ≡ 2 * suc m)
      × (time "java" ≡ 2 * suc t)
unfolding display_mem display_time metadata multipliers
shown_limits d m t memory time =
    let e : number_or (some (suc m * 1024)) (256 * 1024) ≡ suc m * 1024 =
      number_or_positive (suc m * 1024) (256 * 1024) (omega arith) in
    rw (memory, time, e)
      (omega arith, omega arith, omega arith, omega arith, omega arith, omega arith)
