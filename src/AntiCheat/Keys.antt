-- ===== src/AntiCheat/Keys.antt =====
-- The detector of automatic typing: how often it can fire, and what it says of even typing.
use campus_compile.Base.{
  ℕ, zero, suc, ◌+◌, ◌*◌, ◌≤◌, ◌≡◌, refl, ap, sym, ◌∙◌, true, ◌&&◌, some, List, [], ◌∷◌, ◌++◌,
  arith, is_truthy, length, ltb, ◌==◌, if◌then◌else◌, get_elem?, Bool-cases, inl, inr,
  length-append, length-drop,
}
use campus_compile.Base.Int.{ℤ, pos, sub_ℕ, ◌+ℤ◌, ◌-ℤ◌, scale, sub_ℕ-+ℤ, sub_ℕ_self, sub_ℕ-add}
use campus_compile.AntiCheat.{
  Hook, Event, dispatch_telemetry, deltas, sum, spread, is_fast, is_even, push_key, is_suspect,
  report, log_keystroke, is_active, round_mean, round_deviation, round_wpm, typing,
}

last_from : ℕ → List ℕ → ℕ
last_from a [] = a
last_from a (b ∷ ks) = last_from b ks

-- The differences add up to the span from the first key to the last.
sum-deltas : (a : ℕ) (ks : List ℕ) → sum (deltas (a ∷ ks)) ≡ sub_ℕ (last_from a ks) a
unfolding sum deltas last_from
sum-deltas a [] = sym (sub_ℕ_self a)
sum-deltas a (b ∷ ks) = ap (sub_ℕ b a +ℤ◌) (sum-deltas b ks) ∙ sub_ℕ-+ℤ a b (last_from b ks)

-- n keys, the first at `start`, each `gap` after the one before.
pub spaced : ℕ → ℕ → ℕ → List ℕ
spaced zero start gap = []
spaced (suc n) start gap = start ∷ spaced n (start + gap) gap

length-spaced : (n start gap : ℕ) → length (spaced n start gap) ≡ n
unfolding spaced
length-spaced zero start gap = refl
length-spaced (suc n) start gap = ap suc (length-spaced n (start + gap) gap)

spaced-snoc :
    (n start gap : ℕ) → spaced n start gap ++ (start + n * gap) ∷ [] ≡ spaced (suc n) start gap
unfolding spaced
spaced-snoc zero start gap = let e : start + zero * gap ≡ start = omega arith in rw e
spaced-snoc (suc n) start gap =
    let e : start + suc n * gap ≡ start + gap + n * gap = omega arith in
    rw e (ap (start ∷◌) (spaced-snoc n (start + gap) gap))

-- The differences of evenly spaced keys, one fewer than the keys.
gaps : ℕ → ℕ → List ℤ
gaps zero gap = []
gaps (suc n) gap = pos gap ∷ gaps n gap

deltas-spaced : (n start gap : ℕ) → deltas (spaced (suc n) start gap) ≡ gaps n gap
unfolding deltas spaced gaps
deltas-spaced zero start gap = refl
deltas-spaced (suc n) start gap = cc (sub_ℕ-add start gap, deltas-spaced n (start + gap) gap)

sum-gaps : (n gap : ℕ) → sum (gaps n gap) ≡ pos (n * gap)
unfolding sum gaps
sum-gaps zero gap = let e : zero * gap ≡ 0 = omega arith in rw e
sum-gaps (suc n) gap = rw (sum-gaps n gap) (unfold ◌+ℤ◌ in ground arith)

spread-gaps : (m n gap : ℕ) → spread m (pos (m * gap)) (gaps n gap) ≡ 0
unfolding spread gaps
spread-gaps m zero gap = refl
spread-gaps m (suc n) gap =
    let e : scale m (pos gap) -ℤ pos (m * gap) ≡ pos 0 = unfold scale ◌-ℤ◌ in ground arith in
    rw (e, spread-gaps m n gap)

first-spaced : (n start gap : ℕ) → get_elem? (spaced (suc n) start gap) 0 ≡ some start
unfolding spaced
first-spaced n start gap = refl

push_key-spaced :
    (start gap : ℕ) → push_key (start + 49 * gap) (spaced 49 start gap) ≡ spaced 50 start gap
unfolding push_key
push_key-spaced start gap = rw (spaced-snoc 49 start gap, length-spaced 50 start gap) refl

is_fast-span : (start span : ℕ) → is_fast (sub_ℕ (start + span) start) ≡ ltb (3 * span) 10000
unfolding is_fast
is_fast-span start span = rw (sub_ℕ-add start span) refl

is_suspect-spaced :
    (start gap : ℕ)
    → is_suspect (start + 49 * gap) (spaced 50 start gap) ≡ ltb (3 * (49 * gap)) 10000
unfolding is_suspect is_even
is_suspect-spaced start gap =
    rw
      (
        first-spaced 49 start gap,
        deltas-spaced 49 start gap,
        sum-gaps 49 gap,
        spread-gaps 49 49 gap,
        is_fast-span start (49 * gap),
      )
      (ground arith)

push_key-length :
    (now : ℕ) (ks : List ℕ)
    → length ks ≤ 50
    → (length (push_key now ks) ≤ length ks + 1) × (length (push_key now ks) ≤ 50)
unfolding push_key
push_key-length now ks h =
    ground (arith, length-append ks (now ∷ []), length-drop 1 (ks ++ now ∷ []))

mean_of_gap : (gap : ℕ) → round_mean (49 * gap) ≡ gap
unfolding round_mean
mean_of_gap gap = omega arith

report-spaced :
    (start gap : ℕ)
    → report (start + 49 * gap) (spaced 50 start gap) ≡ typing (round_wpm (49 * gap)) 0 gap
unfolding report round_deviation
report-spaced start gap =
    rw
      (
        first-spaced 49 start gap,
        deltas-spaced 49 start gap,
        sum-gaps 49 gap,
        spread-gaps 49 49 gap,
        sub_ℕ-add start (49 * gap),
        mean_of_gap gap,
      )
      refl

-- In a contest, with 49 keys in the buffer that are `gap` milliseconds apart, a fiftieth at the same
-- distance is reported exactly when it makes the rate exceed 180 words a minute, that is when
-- 147 * gap < 10000; the report has deviation 0 and mean `gap`, and only it empties the buffer.
pub even_typing :
    (h : Hook) (start gap : ℕ)
    → is_active h ≡ true
    → h.key_buffer ≡ spaced 49 start gap
    → let now = start + 49 * gap in
      let h' = log_keystroke now h in
      let event : Event = record {
        event_type = "autotyper_suspected";
        metadata = typing (round_wpm (49 * gap)) 0 gap;
        timestamp = now;
      } in
      let caught = ltb (147 * gap) 10000 in
      (h'.key_buffer ≡ (if caught then [] else spaced 50 start gap))
      × (h'.event_buffer ≡ (if caught then h.event_buffer ++ event ∷ [] else h.event_buffer))
unfolding log_keystroke dispatch_telemetry
even_typing h start gap active buffer =
    let e : 3 * (49 * gap) ≡ 147 * gap = omega arith in
    rw
      (
        buffer,
        push_key-spaced start gap,
        length-spaced 50 start gap,
        is_suspect-spaced start gap,
        report-spaced start gap,
        e,
      )
      (ground arith)

log_keystroke-rate :
    (now : ℕ) (h : Hook)
    → length h.key_buffer ≤ 50
    → let h' = log_keystroke now h in
      (50 * length h'.event_buffer + length h'.key_buffer
        ≤ 50 * length h.event_buffer + length h.key_buffer + 1)
      × (length h'.key_buffer ≤ 50)
unfolding log_keystroke dispatch_telemetry
log_keystroke-rate now h b =
    let (p, q) = push_key-length now h.key_buffer b in
    let keys = push_key now h.key_buffer in
    let event : Event = record {
      event_type = "autotyper_suspected";
      metadata = report now keys;
      timestamp = now;
    } in
    let more = length-append h.event_buffer (event ∷ []) in
    elim (Bool-cases h.is_contest) [
      | inr f ↦ rw f (omega arith, b)
      | inl t ↦ elim (Bool-cases (length keys == 50 && is_suspect now keys)) [
        | inr f ↦ rw (t, f) (omega arith, q)
        | inl caught ↦
            let full : length keys ≡ 50 = ground arith in
            elim (Bool-cases (is_truthy h.contest_id)) [
              | inl u ↦ rw (t, caught, u) (omega arith, omega arith)
              | inr u ↦ rw (t, caught, u) (omega arith, omega arith)
            ]
      ]
    ]

pub log_keys : List ℕ → Hook → Hook
log_keys [] h = h
log_keys (now ∷ times) h = log_keys times (log_keystroke now h)

rate :
    (times : List ℕ) (h : Hook)
    → length h.key_buffer ≤ 50
    → (50 * length (log_keys times h).event_buffer + length (log_keys times h).key_buffer
        ≤ 50 * length h.event_buffer + length h.key_buffer + length times)
      × (length (log_keys times h).key_buffer ≤ 50)
unfolding log_keys
rate [] h b = (omega arith, b)
rate (now ∷ times) h b =
    let (p, q) = log_keystroke-rate now h b in
    let (p', q') = rate times (log_keystroke now h) q in (omega arith, q')

-- From a buffer of at most 50 keys, n keys in a row cause at most (n + the keys of the buffer) / 50
-- reports, whatever their times: 50 times the new events are no more than the keys.
pub report_rate :
    (times : List ℕ) (h : Hook)
    → length h.key_buffer ≤ 50
    → 50 * length (log_keys times h).event_buffer
      ≤ 50 * length h.event_buffer + length h.key_buffer + length times
report_rate times h b = let (p, q) = rate times h b in omega arith
