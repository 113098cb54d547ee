-- ===== src/Paging/View/Alignment.antt =====
-- Every paged page stays on whole pages, whatever the order of clicks and answers.
use campus_compile.Base.{
  ℕ, ◌+◌, ◌*◌, zero, suc, ◌≡◌, refl, Option, none, some, List, [], ◌∷◌, ◌++◌, arith, All, ◌∙◌, sym,
}
use campus_compile.Paging.{Pager, receive, prev, next, rewind}
use campus_compile.Paging.View.{
  PagedView, Reach, start, debounced, prev_pressed, next_pressed, answered, failed, IsAligned,
  push_asked,
}

All-cut :
    {A : Type 0} (P : A → Type 0) (before : List A) (o : A) (after : List A)
    → All P (before ++ o ∷ after)
    → P o × All P (before ++ after)
All-cut P [] o after h = h
All-cut P (b ∷ before) o after (hb, h) =
    let (ho, rest) = All-cut P before o after h in (ho, (hb, rest))

module _ (limit : ℕ) where
  -- The offset `o` is a whole number of pages.
  abbrev On : ℕ → Type 0
  On o = (k : ℕ) × (o ≡ k * limit)

  On-prev : {A : Type 0} (p : Pager A) → On p.offset → (o : ℕ) → prev limit p ≡ some o → On o
  unfolding prev
  On-prev p (zero, e) o h = (0, ground arith)
  On-prev p (suc k, e) o h = (k, ground arith)

  On-next : {A : Type 0} (p : Pager A) → On p.offset → (o : ℕ) → next limit p ≡ some o → On o
  unfolding next
  On-next p (k, e) o h = (k + 1, ground arith)

  On-push :
      (a : Option ℕ) (os : List ℕ)
      → ((o : ℕ) → a ≡ some o → On o)
      → All On os
      → All On (push_asked a os)
  On-push none os here rest = rest
  On-push (some o) os here rest = (here o refl, rest)

module _ {A : Type 0} (v : PagedView A) where
  open v use {State, limit, pager}

  -- However clicks, debounced searches, answers and failures are interleaved, the offset shown and
  -- the offset of every request under way are whole numbers of pages.
  pub Reach-IsAligned :
      {s : State} {os : List ℕ} → Reach v s os → IsAligned v (pager s).offset × All (IsAligned v) os
  unfolding rewind receive
  Reach-IsAligned start = ((0, rw (v.initial_lem) (omega arith)), tt)
  Reach-IsAligned (debounced {s} r) =
      let (same, asks) = v.debounce_lem s in
      ((0, rw same (omega arith)), ((0, asks ∙ omega arith), (Reach-IsAligned r).1))
  Reach-IsAligned (prev_pressed {s} {os} r) =
      let (here, rest) = Reach-IsAligned r in
      let (same, asks) = v.prev_lem s in
      (rw same here, On-push limit _ os (λ o e. On-prev limit (pager s) here o (sym asks ∙ e)) rest)
  Reach-IsAligned (next_pressed {s} {os} r) =
      let (here, rest) = Reach-IsAligned r in
      let (same, asks) = v.next_lem s in
      (rw same here, On-push limit _ os (λ o e. On-next limit (pager s) here o (sym asks ∙ e)) rest)
  Reach-IsAligned (answered {s} o rows before after r) =
      let (asked_on, rest) = All-cut (IsAligned v) before o after (Reach-IsAligned r).1 in
      (rw (v.response_lem o rows s) asked_on, rest)
  Reach-IsAligned (failed {s} o before after r) =
      let (here, pending) = Reach-IsAligned r in
      (rw (v.error_lem s) here, (All-cut (IsAligned v) before o after pending).1)
