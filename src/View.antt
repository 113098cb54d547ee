-- ===== src/View.antt =====
-- What a page renders: the texts, links and controls that it shows, in their order, without their
-- styles. A control carries what its handler is told; the values of `M` are those messages.
pub mod Offers
use campus_compile.Base.{Bool, true, false, List, [], ◌∷◌, ◌++◌, String}

pub data View (M : Type 0) : Type 0 where
  -- a text
  label : String → View M
  -- a path and a name
  link : String → String → View M
  -- a name, whether it is disabled, and the message of a click
  button : String → Bool → M → View M
  -- a box, whether it is checked, and the message of a click
  checkbox : Bool → M → View M
  -- a value, whether it is disabled, and the message of a new value
  input : String → Bool → (String → M) → View M
  -- the same with the values to choose from
  select : String → List String → Bool → (String → M) → View M

-- `condition && (…)`.
abbrev pub shown_if : {M : Type 0} → Bool → List (View M) → List (View M)
shown_if true vs = vs
shown_if false vs = []

-- A part of a page, with its messages wrapped.
unfoldable pub wrap : {M N : Type 0} → (M → N) → List (View M) → List (View N)
wrap f [] = []
wrap f (label s ∷ vs) = label s ∷ wrap f vs
wrap f (link path name ∷ vs) = link path name ∷ wrap f vs
wrap f (button name disabled m ∷ vs) = button name disabled (f m) ∷ wrap f vs
wrap f (checkbox checked m ∷ vs) = checkbox checked (f m) ∷ wrap f vs
wrap f (input value disabled g ∷ vs) = input value disabled (λ s. f (g s)) ∷ wrap f vs
wrap f (select value options disabled g ∷ vs) =
    select value options disabled (λ s. f (g s)) ∷ wrap f vs
