-- ===== src/Paging/View/Buttons.antt =====
-- A button that is enabled does something.
use campus_compile.Base.{
  ℕ, zero, suc, ◌*◌, ◌≡◌, ◌∙◌, refl, arith, not, true, false, Option, some, List, ◌==◌, leb, inl,
  inr,
}
use campus_compile.Paging.{Pager, prev, next}
use campus_compile.Paging.Controls.{turn_buttons}
use campus_compile.Paging.View.{PagedView, Reach, asked}
use campus_compile.Paging.View.Alignment.{Reach-IsAligned}
use campus_compile.View.Offers.{Offers}

pub data Turn : Type 0 where
  to_prev to_next : Turn

prev-some :
    {A : Type 0} (limit k : ℕ) (p : Pager A)
    → p.offset ≡ k * limit
    → (p.offset == 0) ≡ false
    → (o : ℕ) × (prev limit p ≡ some o)
unfolding prev
prev-some limit zero p e ne = absurd (ground arith)
prev-some limit (suc k) p e ne =
    let enough : leb limit p.offset ≡ true = ground (arith, e) in rw enough (_, refl)

next-some :
    {A : Type 0} (limit : ℕ) (p : Pager A)
    → not p.has_more ≡ false
    → (o : ℕ) × (next limit p ≡ some o)
unfolding next
next-some limit p more = let m : p.has_more ≡ true = ground arith in rw m (_, refl)

module _ {A : Type 0} (v : PagedView A) where
  open v use {State, limit, pager, handle_prev, handle_next}

  -- The offset that a button's handler asks for.
  abbrev pub pressed : Turn → State → Option ℕ
  pressed to_prev s = asked (handle_prev s).1
  pressed to_next s = asked (handle_next s).1

  -- On a paged page in any state that clicks and answers lead to, an enabled button below the list
  -- always sends a request.
  pub pressed-some :
      {s : State} {os : List ℕ} (m : Turn)
      → Reach v s os
      → Offers (turn_buttons to_prev to_next (pager s)) m
      → (o : ℕ) × (pressed m s ≡ some o)
  unfolding Offers
  pressed-some {s} m r (inl (enabled, e)) =
      let ((k, aligned), _) = Reach-IsAligned v r in
      let (o, asks) = prev-some limit k (pager s) aligned enabled in
      rw⁻¹ e (o, (v.prev_lem s).1 ∙ asks)
  pressed-some {s} m r (inr (inl (enabled, e))) =
      let (o, asks) = next-some limit (pager s) enabled in rw⁻¹ e (o, (v.next_lem s).1 ∙ asks)
  pressed-some m r (inr (inr x)) = elim x [ ]
