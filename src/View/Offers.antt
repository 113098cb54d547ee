-- ===== src/View/Offers.antt =====
-- The messages that the enabled controls of a page can send.
use campus_compile.Base.{
  Bool, true, false, List, [], ◌∷◌, ◌++◌, String, ◌≡◌, ◌⊎◌, inl, inr, one_of, refl, ap,
}
use campus_compile.View.{View, label, link, button, checkbox, input, select, shown_if, wrap}

module _ {M : Type 0} where
  unfoldable pub Offers : List (View M) → M → Type 0
  Offers [] m = ⊥
  Offers (label s ∷ vs) m = Offers vs m
  Offers (link path name ∷ vs) m = Offers vs m
  Offers (button name disabled x ∷ vs) m = ((disabled ≡ false) × (x ≡ m)) ⊎ Offers vs m
  Offers (checkbox checked x ∷ vs) m = (x ≡ m) ⊎ Offers vs m
  Offers (input value disabled f ∷ vs) m =
      ((disabled ≡ false) × ((s : String) × (f s ≡ m))) ⊎ Offers vs m
  Offers (select value options disabled f ∷ vs) m =
      ((disabled ≡ false) × ((s : String) × (one_of s options ≡ true) × (f s ≡ m))) ⊎ Offers vs m

  -- What two parts of a page offer, one of them offers.
  pub Offers-append :
      (vs ws : List (View M)) (m : M) → Offers (vs ++ ws) m → Offers vs m ⊎ Offers ws m
  unfolding Offers
  Offers-append [] ws m h = inr h
  Offers-append (label s ∷ vs) ws m h = Offers-append vs ws m h
  Offers-append (link path name ∷ vs) ws m h = Offers-append vs ws m h
  Offers-append (button name disabled x ∷ vs) ws m (inl h) = inl (inl h)
  Offers-append (button name disabled x ∷ vs) ws m (inr h) = elim (Offers-append vs ws m h) [
    | inl l ↦ inl (inr l)
    | inr r ↦ inr r
  ]
  Offers-append (checkbox checked x ∷ vs) ws m (inl h) = inl (inl h)
  Offers-append (checkbox checked x ∷ vs) ws m (inr h) = elim (Offers-append vs ws m h) [
    | inl l ↦ inl (inr l)
    | inr r ↦ inr r
  ]
  Offers-append (input value disabled f ∷ vs) ws m (inl h) = inl (inl h)
  Offers-append (input value disabled f ∷ vs) ws m (inr h) = elim (Offers-append vs ws m h) [
    | inl l ↦ inl (inr l)
    | inr r ↦ inr r
  ]
  Offers-append (select value options disabled f ∷ vs) ws m (inl h) = inl (inl h)
  Offers-append (select value options disabled f ∷ vs) ws m (inr h) =
      elim (Offers-append vs ws m h) [ inl l ↦ inl (inr l) | inr r ↦ inr r ]

  -- What a part offers, the page offers.
  pub Offers-left : (vs ws : List (View M)) (m : M) → Offers vs m → Offers (vs ++ ws) m
  unfolding Offers
  Offers-left [] ws m h = elim h [ ]
  Offers-left (label s ∷ vs) ws m h = Offers-left vs ws m h
  Offers-left (link path name ∷ vs) ws m h = Offers-left vs ws m h
  Offers-left (button name disabled x ∷ vs) ws m (inl h) = inl h
  Offers-left (button name disabled x ∷ vs) ws m (inr h) = inr (Offers-left vs ws m h)
  Offers-left (checkbox checked x ∷ vs) ws m (inl h) = inl h
  Offers-left (checkbox checked x ∷ vs) ws m (inr h) = inr (Offers-left vs ws m h)
  Offers-left (input value disabled f ∷ vs) ws m (inl h) = inl h
  Offers-left (input value disabled f ∷ vs) ws m (inr h) = inr (Offers-left vs ws m h)
  Offers-left (select value options disabled f ∷ vs) ws m (inl h) = inl h
  Offers-left (select value options disabled f ∷ vs) ws m (inr h) = inr (Offers-left vs ws m h)

  pub Offers-right : (vs ws : List (View M)) (m : M) → Offers ws m → Offers (vs ++ ws) m
  unfolding Offers
  Offers-right [] ws m h = h
  Offers-right (label s ∷ vs) ws m h = Offers-right vs ws m h
  Offers-right (link path name ∷ vs) ws m h = Offers-right vs ws m h
  Offers-right (button name disabled x ∷ vs) ws m h = inr (Offers-right vs ws m h)
  Offers-right (checkbox checked x ∷ vs) ws m h = inr (Offers-right vs ws m h)
  Offers-right (input value disabled f ∷ vs) ws m h = inr (Offers-right vs ws m h)
  Offers-right (select value options disabled f ∷ vs) ws m h = inr (Offers-right vs ws m h)

  -- A part that is shown under a condition offers only when it holds.
  pub Offers-shown_if :
      (b : Bool) (vs : List (View M)) (m : M) → Offers (shown_if b vs) m → (b ≡ true) × Offers vs m
  unfolding Offers
  Offers-shown_if true vs m h = (refl, h)
  Offers-shown_if false vs m h = elim h [ ]

  -- Every message that a page's controls carry has a property.
  abbrev pub AllSent : (M → Type 0) → List (View M) → Type 0
  AllSent P [] = Unit
  AllSent P (label s ∷ vs) = AllSent P vs
  AllSent P (link path name ∷ vs) = AllSent P vs
  AllSent P (button name disabled x ∷ vs) = P x × AllSent P vs
  AllSent P (checkbox checked x ∷ vs) = P x × AllSent P vs
  AllSent P (input value disabled f ∷ vs) = ((s : String) → P (f s)) × AllSent P vs
  AllSent P (select value options disabled f ∷ vs) = ((s : String) → P (f s)) × AllSent P vs

  pub AllSent-append :
      (P : M → Type 0) (vs ws : List (View M)) → AllSent P vs → AllSent P ws → AllSent P (vs ++ ws)
  AllSent-append P [] ws a b = b
  AllSent-append P (label s ∷ vs) ws a b = AllSent-append P vs ws a b
  AllSent-append P (link path name ∷ vs) ws a b = AllSent-append P vs ws a b
  AllSent-append P (button name disabled x ∷ vs) ws (p, a) b = (p, AllSent-append P vs ws a b)
  AllSent-append P (checkbox checked x ∷ vs) ws (p, a) b = (p, AllSent-append P vs ws a b)
  AllSent-append P (input value disabled f ∷ vs) ws (p, a) b = (p, AllSent-append P vs ws a b)
  AllSent-append P (select value options disabled f ∷ vs) ws (p, a) b =
      (p, AllSent-append P vs ws a b)

  pub AllSent-shown_if :
      (P : M → Type 0) (b : Bool) (vs : List (View M)) → AllSent P vs → AllSent P (shown_if b vs)
  AllSent-shown_if P true vs a = a
  AllSent-shown_if P false vs a = tt

  -- So does every message that is offered.
  pub Offers-AllSent :
      (P : M → Type 0) (vs : List (View M)) (m : M) → AllSent P vs → Offers vs m → P m
  unfolding Offers
  Offers-AllSent P [] m a h = elim h [ ]
  Offers-AllSent P (label s ∷ vs) m a h = Offers-AllSent P vs m a h
  Offers-AllSent P (link path name ∷ vs) m a h = Offers-AllSent P vs m a h
  Offers-AllSent P (button name disabled x ∷ vs) m (p, a) (inl (d, e)) = rw⁻¹ e p
  Offers-AllSent P (button name disabled x ∷ vs) m (p, a) (inr h) = Offers-AllSent P vs m a h
  Offers-AllSent P (checkbox checked x ∷ vs) m (p, a) (inl e) = rw⁻¹ e p
  Offers-AllSent P (checkbox checked x ∷ vs) m (p, a) (inr h) = Offers-AllSent P vs m a h
  Offers-AllSent P (input value disabled f ∷ vs) m (p, a) (inl (d, (s, e))) = rw⁻¹ e (p s)
  Offers-AllSent P (input value disabled f ∷ vs) m (p, a) (inr h) = Offers-AllSent P vs m a h
  Offers-AllSent P (select value options disabled f ∷ vs) m (p, a) (inl (d, (s, i, e))) =
      rw⁻¹ e (p s)
  Offers-AllSent P (select value options disabled f ∷ vs) m (p, a) (inr h) =
      Offers-AllSent P vs m a h

-- A wrapped part offers what it offers, wrapped.
pub Offers-wrap :
    {M N : Type 0} (f : M → N) (vs : List (View M)) (n : N)
    → Offers (wrap f vs) n
    → (m : M) × Offers vs m × (f m ≡ n)
unfolding Offers wrap
Offers-wrap f [] n h = elim h [ ]
Offers-wrap f (label s ∷ vs) n h = Offers-wrap f vs n h
Offers-wrap f (link path name ∷ vs) n h = Offers-wrap f vs n h
Offers-wrap f (button name disabled m ∷ vs) n (inl (d, e)) = (m, inl (d, refl), e)
Offers-wrap f (button name disabled m ∷ vs) n (inr h) =
    let (k, o, e) = Offers-wrap f vs n h in (k, inr o, e)
Offers-wrap f (checkbox checked m ∷ vs) n (inl e) = (m, inl refl, e)
Offers-wrap f (checkbox checked m ∷ vs) n (inr h) =
    let (k, o, e) = Offers-wrap f vs n h in (k, inr o, e)
Offers-wrap f (input value disabled g ∷ vs) n (inl (d, (s, e))) = (g s, inl (d, (s, refl)), e)
Offers-wrap f (input value disabled g ∷ vs) n (inr h) =
    let (k, o, e) = Offers-wrap f vs n h in (k, inr o, e)
Offers-wrap f (select value options disabled g ∷ vs) n (inl (d, (s, i, e))) =
    (g s, inl (d, (s, i, refl)), e)
Offers-wrap f (select value options disabled g ∷ vs) n (inr h) =
    let (k, o, e) = Offers-wrap f vs n h in (k, inr o, e)

pub wrap-Offers :
    {M N : Type 0} (f : M → N) (vs : List (View M)) (m : M) → Offers vs m → Offers (wrap f vs) (f m)
unfolding Offers wrap
wrap-Offers f [] m h = elim h [ ]
wrap-Offers f (label s ∷ vs) m h = wrap-Offers f vs m h
wrap-Offers f (link path name ∷ vs) m h = wrap-Offers f vs m h
wrap-Offers f (button name disabled x ∷ vs) m (inl (d, e)) = inl (d, ap f e)
wrap-Offers f (button name disabled x ∷ vs) m (inr h) = inr (wrap-Offers f vs m h)
wrap-Offers f (checkbox checked x ∷ vs) m (inl e) = inl (ap f e)
wrap-Offers f (checkbox checked x ∷ vs) m (inr h) = inr (wrap-Offers f vs m h)
wrap-Offers f (input value disabled g ∷ vs) m (inl (d, (s, e))) = inl (d, (s, ap f e))
wrap-Offers f (input value disabled g ∷ vs) m (inr h) = inr (wrap-Offers f vs m h)
wrap-Offers f (select value options disabled g ∷ vs) m (inl (d, (s, i, e))) =
    inl (d, (s, i, ap f e))
wrap-Offers f (select value options disabled g ∷ vs) m (inr h) = inr (wrap-Offers f vs m h)
