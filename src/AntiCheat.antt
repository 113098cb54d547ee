-- ===== src/AntiCheat.antt =====
-- The telemetry of a contest: frontend/src/hooks/useAntiCheat.js. The state is the hook's refs, the
-- batches that it has posted (the last first), and what the browser shows. The time, in
-- milliseconds, is an argument of each handler. The source's floats are exact fractions here: a
-- quotient is compared and rounded by its numerator and denominator.
pub mod Keys
pub mod Batches
pub mod Idle
use campus_compile.Base.{
  ℕ, zero, suc, ◌+◌, ◌-◌, ◌*◌, ◌/◌, Bool, true, false, not, ◌&&◌, ◌||◌, Option, none, some, List,
  [], ◌∷◌, ◌++◌, String, str_eq, is_truthy, length, ltb, leb, ◌==◌, if◌then◌else◌, get_elem?,
  or_default, drop, set,
}
use campus_compile.Base.Int.{ℤ, pos, sub_ℕ, ◌+ℤ◌, ◌-ℤ◌, scale, square, ltb_ℤ, pos_part}

-- The metadata of the events; a rate is `none` when it is infinite.
pub data Metadata : Type 0 where
  at : ℕ → Metadata
  duration_out : ℕ → Metadata
  typing : Option ℕ → ℕ → ℕ → Metadata
  action : String → Metadata
  warning : String → ℕ → Metadata

pub record Event : Type 0 where
  pub event_type : String
  pub metadata : Metadata
  pub timestamp : ℕ

-- The hook's refs, with the browser's timers: `timers` has every timer that was set, with its time
-- of expiry until it fires or is cleared, and `mouse_leave_timer` says which of them the ref holds.
pub record Hook : Type 0 where
  pub contest_id : Option String
  pub is_contest : Bool
  pub key_buffer : List ℕ
  pub mouse_leave_timer : Option ℕ
  pub timers : List (Option ℕ)
  pub event_buffer : List Event
  pub posted : List (List Event)

abbrev pub is_active : Hook → Bool
is_active h = h.is_contest && is_truthy h.contest_id

unfoldable pub dispatch_telemetry : String → Metadata → ℕ → Hook → Hook
dispatch_telemetry event_type metadata now h =
    if is_active h
    then record h {
      event_buffer =
          h.event_buffer
          ++ record { event_type = event_type; metadata = metadata; timestamp = now } ∷ [];
    }
    else h

-- The daemon's flush: its timer, the page's `beforeunload` and the unmount call it.
unfoldable pub flush_telemetry : Hook → Hook
flush_telemetry h =
    if is_active h && ltb 0 (length h.event_buffer)
    then record h { event_buffer = []; posted = h.event_buffer ∷ h.posted }
    else h

unfoldable pub handle_visibility_change : Bool → ℕ → Hook → Hook
unfolding dispatch_telemetry
handle_visibility_change hidden now h =
    if h.is_contest && hidden then dispatch_telemetry "blur" (at now) now h else h

-- The mouse leaves: a timer is set, and the ref forgets the one before it.
unfoldable pub handle_mouse_leave : ℕ → Hook → Hook
handle_mouse_leave now h =
    if h.is_contest
    then record h {
      mouse_leave_timer = some (length h.timers);
      timers = h.timers ++ some (now + 45000) ∷ [];
    }
    else h

unfoldable pub clear_timer : Option ℕ → List (Option ℕ) → List (Option ℕ)
clear_timer none ts = ts
clear_timer (some i) ts = set ts i none

unfoldable pub handle_mouse_enter : Hook → Hook
unfolding clear_timer
handle_mouse_enter h =
    if h.is_contest then record h { timers = clear_timer h.mouse_leave_timer h.timers } else h

-- The effects' cleanups when the page is left.
unfoldable pub unmount : Hook → Hook
unfolding flush_telemetry handle_mouse_enter
unmount h = handle_mouse_enter (flush_telemetry h)

-- Whether a timer is there and its time has come.
unfoldable pub is_due : ℕ → ℕ → List (Option ℕ) → Bool
is_due now i [] = false
is_due now zero (none ∷ ts) = false
is_due now zero (some expiry ∷ ts) = leb expiry now
is_due now (suc i) (t ∷ ts) = is_due now i ts

-- A timer fires.
unfoldable pub mouse_timeout : ℕ → Bool → ℕ → Hook → Hook
unfolding dispatch_telemetry is_due clear_timer
mouse_timeout i has_focus now h =
    let h' = record h { timers = clear_timer (some i) h.timers } in
    if is_due now i h.timers
    then if has_focus
      then dispatch_telemetry "visibility_spoof_suspected" (duration_out 45000) now h'
      else h'
    else h

unfoldable pub log_paste_attempt : ℕ → Hook → Hook
unfolding dispatch_telemetry
log_paste_attempt now h = dispatch_telemetry "paste_attempt" (at now) now h

-- The differences of neighbours.
unfoldable pub deltas : List ℕ → List ℤ
deltas [] = []
deltas (a ∷ []) = []
deltas (a ∷ b ∷ ks) = sub_ℕ b a ∷ deltas (b ∷ ks)

unfoldable pub sum : List ℤ → ℤ
sum [] = pos 0
sum (d ∷ ds) = d +ℤ sum ds

-- With n numbers of sum s, n³ times their variance: the sum of (n * d - s)².
unfoldable pub spread : ℕ → ℤ → List ℤ → ℕ
spread n s [] = 0
spread n s (d ∷ ds) = square (scale n d -ℤ s) + spread n s ds

-- `wpm > 180`, where wpm is 10 / (span / 60000): infinite for a span of 0, negative for a negative.
unfoldable pub is_fast : ℤ → Bool
is_fast (pos span) = ltb (3 * span) 10000
is_fast _ = false

-- `stdDev < 15`: the spread of 49 differences is 49³ times the variance.
unfoldable pub is_even : ℕ → Bool
is_even v = ltb v (225 * 117649)

-- `Math.round` of the rate, of the deviation and of the mean.
unfoldable pub round_wpm : ℕ → Option ℕ
round_wpm zero = none
round_wpm (suc t) = some ((1200000 + suc t) / (2 * suc t))

unfoldable pub round_deviation : ℕ → ℕ → ℕ
round_deviation zero v = 0
round_deviation (suc k) v =
    let lower = round_deviation k v in
    if leb ((2 * k + 1) * (2 * k + 1) * 117649) (4 * v) then suc k else lower

unfoldable pub round_mean : ℕ → ℕ
round_mean total = (2 * total + 49) / 98

-- The buffer after a key, at most 50 keys long.
unfoldable pub push_key : ℕ → List ℕ → List ℕ
push_key now ks =
    let longer = ks ++ now ∷ [] in if ltb 50 (length longer) then drop 1 longer else longer

-- The test on a full buffer.
unfoldable pub is_suspect : ℕ → List ℕ → Bool
unfolding deltas sum spread is_fast is_even ◌+ℤ◌ ◌-ℤ◌ scale
is_suspect now ks =
    is_fast (sub_ℕ now (or_default (get_elem? ks 0) 0))
    && is_even (spread 49 (sum (deltas ks)) (deltas ks))

-- What a suspect buffer reports; the span is not negative there.
unfoldable pub report : ℕ → List ℕ → Metadata
unfolding deltas sum spread round_wpm round_deviation round_mean ◌+ℤ◌ ◌-ℤ◌ scale
report now ks =
    let total = sum (deltas ks) in
    typing (round_wpm (pos_part (sub_ℕ now (or_default (get_elem? ks 0) 0))))
      (round_deviation 15 (spread 49 total (deltas ks))) (round_mean (pos_part total))

unfoldable pub log_keystroke : ℕ → Hook → Hook
unfolding push_key
log_keystroke now h =
    let keys = push_key now h.key_buffer in
    let h' = record h { key_buffer = keys } in
    if h.is_contest
    then if length keys == 50 && is_suspect now keys
      then record (dispatch_telemetry "autotyper_suspected" (report now keys) now h') {
        key_buffer = [];
      }
      else h'
    else h
