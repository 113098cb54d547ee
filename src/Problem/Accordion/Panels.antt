-- ===== src/Problem/Accordion/Panels.antt =====
-- The accordion as a list of panels, each a case with its open flag: what the handlers do to it.
use campus_compile.Base.{
  ℕ, zero, suc, ◌+◌, ◌-◌, ◌≤◌, ◌<◌, ◌≡◌, refl, ap, Bool, Option, none, some, List, [], ◌∷◌, ◌++◌,
  arith, ltb, ◌==◌, length, get_elem?, set, if◌then◌else◌,
}
use campus_compile.Problem.{TestCase}
use campus_compile.Problem.Accordion.{
  Expanded, lookup, put, is_open, Accordion, erase_idx, remap_key, remap, Field, write,
}

-- The panels from index `i` on.
unfoldable pub panels_from : ℕ → List TestCase → Expanded → List (TestCase × Bool)
panels_from i [] m = []
panels_from i (c ∷ cs) m = (c, is_open i m) ∷ panels_from (suc i) cs m

unfoldable pub panels : Accordion → List (TestCase × Bool)
unfolding panels_from
panels a = panels_from 0 a.test_cases a.expanded_cases

-- Apply a function to the element at an index, if there is one.
unfoldable pub modify {ℓ} : {A : Type ℓ} → ℕ → (A → A) → List A → List A
modify i f [] = []
modify zero f (x ∷ xs) = f x ∷ xs
modify (suc i) f (x ∷ xs) = x ∷ modify i f xs

pub lookup-put :
    (i j : ℕ) (v : Bool) (m : Expanded)
    → lookup j (put i v m) ≡ (if i == j then some v else lookup j m)
unfolding lookup put
lookup-put i j v [] = refl
lookup-put i j v ((k, w) ∷ rest) = ground (arith, lookup-put i j v rest)

-- An object's keys are distinct.
abbrev pub IsObject : Expanded → Type 0
IsObject [] = Unit
IsObject ((k, v) ∷ rest) = (lookup k rest ≡ none) × IsObject rest

pub put-IsObject : (i : ℕ) (v : Bool) (m : Expanded) → IsObject m → IsObject (put i v m)
unfolding lookup put
put-IsObject i v [] h = (refl, tt)
put-IsObject i v ((k, w) ∷ rest) (distinct, h) =
    ground (arith, lookup-put i k v rest, put-IsObject i v rest)

-- The index that a case had before the removal.
abbrev pub before : ℕ → ℕ → ℕ
before removed j = if ltb j removed then j else j + 1

-- The later of two bindings.
abbrev pub or_else : Option Bool → Option Bool → Option Bool
or_else none d = d
or_else (some v) d = some v

lookup-remap_key :
    (removed k j : ℕ) (v : Bool) (fresh : Expanded)
    → lookup j (remap_key removed k v fresh)
      ≡ (if k == before removed j then some v else lookup j fresh)
unfolding remap_key
lookup-remap_key removed k j v fresh =
    ground (arith, lookup-put k j v fresh, lookup-put (k - 1) j v fresh)

pub lookup-remap :
    (removed j : ℕ) (fresh m : Expanded)
    → IsObject m
    → lookup j (remap removed fresh m) ≡ or_else (lookup (before removed j) m) (lookup j fresh)
unfolding remap lookup
lookup-remap removed j fresh [] h = refl
lookup-remap removed j fresh ((k, v) ∷ rest) (distinct, h) = ground (
  arith,
  lookup-remap removed j (remap_key removed k v fresh) rest h,
  lookup-remap_key removed k j v fresh,
)

remap_key-IsObject :
    (removed k : ℕ) (v : Bool) (fresh : Expanded)
    → IsObject fresh
    → IsObject (remap_key removed k v fresh)
unfolding remap_key
remap_key-IsObject removed k v fresh h =
    ground (arith, put-IsObject k v fresh, put-IsObject (k - 1) v fresh)

pub remap-IsObject :
    (removed : ℕ) (fresh m : Expanded) → IsObject fresh → IsObject (remap removed fresh m)
unfolding remap
remap-IsObject removed fresh [] h = h
remap-IsObject removed fresh ((k, v) ∷ rest) h =
    remap-IsObject removed (remap_key removed k v fresh) rest
      (remap_key-IsObject removed k v fresh h)

pub is_open-remap :
    (removed j : ℕ) (m : Expanded)
    → IsObject m
    → is_open j (remap removed [] m) ≡ is_open (before removed j) m
unfolding lookup
is_open-remap removed j m h = ground (arith, lookup-remap removed j [] m h)

panels_from-shift :
    (s : ℕ) (cs : List TestCase) (m m' : Expanded)
    → ((j : ℕ) → s ≤ j → is_open j m' ≡ is_open (suc j) m)
    → panels_from s cs m' ≡ panels_from (suc s) cs m
unfolding panels_from
panels_from-shift s [] m m' h = refl
panels_from-shift s (c ∷ cs) m m' h =
    cc (h s (omega arith), panels_from-shift (suc s) cs m m' (λ j le. h j (omega arith)))

pub panels_from-erase_idx :
    (i s : ℕ) (cs : List TestCase) (m m' : Expanded)
    → ((j : ℕ) → is_open j m' ≡ is_open (before (s + i) j) m)
    → panels_from s (erase_idx i cs) m' ≡ erase_idx i (panels_from s cs m)
unfolding panels_from erase_idx
panels_from-erase_idx i s [] m m' h = refl
panels_from-erase_idx zero s (c ∷ cs) m m' h =
    panels_from-shift s cs m m' (λ j le. ground (arith, h j))
panels_from-erase_idx (suc i) s (c ∷ cs) m m' h =
    let here : is_open s m' ≡ is_open s m = ground (arith, h s) in
    let e : s + suc i ≡ suc s + i = omega arith in
    cc (here, panels_from-erase_idx i (suc s) cs m m' (λ j. rw (← e) (h j)))

pub panels_from-same :
    (s : ℕ) (cs : List TestCase) (m m' : Expanded)
    → ((j : ℕ) → s ≤ j → j < s + length cs → is_open j m' ≡ is_open j m)
    → panels_from s cs m' ≡ panels_from s cs m
unfolding panels_from
panels_from-same s [] m m' h = refl
panels_from-same s (c ∷ cs) m m' h = cc (
  h s (omega arith) (omega arith),
  panels_from-same (suc s) cs m m' (λ j le lt. h j (omega arith) (omega arith)),
)

pub panels_from-append :
    (s : ℕ) (cs ds : List TestCase) (m : Expanded)
    → panels_from s (cs ++ ds) m ≡ panels_from s cs m ++ panels_from (s + length cs) ds m
unfolding panels_from
panels_from-append s [] ds m = let e : s + zero ≡ s = omega arith in rw e
panels_from-append s (c ∷ cs) ds m =
    let e : s + suc (length cs) ≡ suc s + length cs = omega arith in
    rw e (ap ((c, is_open s m) ∷◌) (panels_from-append (suc s) cs ds m))

pub is_open-put :
    (i j : ℕ) (v : Bool) (m : Expanded)
    → is_open j (put i v m) ≡ (if i == j then v else is_open j m)
is_open-put i j v m = ground (arith, lookup-put i j v m)

-- Writing the flag of one panel, by a function of its old flag.
pub panels_from-put :
    (f : Bool → Bool) (i s : ℕ) (v : Bool) (cs : List TestCase) (m : Expanded)
    → v ≡ f (is_open (s + i) m)
    → panels_from s cs (put (s + i) v m) ≡ modify i (λ p. (p.0, f p.1)) (panels_from s cs m)
unfolding panels_from modify
panels_from-put f i s v [] m e = refl
panels_from-put f zero s v (c ∷ cs) m e =
    let z : s + zero ≡ s = omega arith in
    let here : is_open s (put (s + zero) v m) ≡ f (is_open s m) =
      ground (arith, is_open-put (s + zero) s v m) in
    cc (
      here,
      panels_from-same (suc s) cs m (put (s + zero) v m)
          (λ j le lt. ground (arith, is_open-put (s + zero) j v m)),
    )
panels_from-put f (suc i) s v (c ∷ cs) m e =
    let z : s + suc i ≡ suc s + i = omega arith in
    let here : is_open s (put (s + suc i) v m) ≡ is_open s m =
      ground (arith, is_open-put (s + suc i) s v m) in
    let e' : v ≡ f (is_open (suc s + i) m) = rw (← z) e in
    let rest : panels_from (suc s) cs (put (s + suc i) v m)
        ≡ modify i (λ p. (p.0, f p.1)) (panels_from (suc s) cs m) =
      rw z (panels_from-put f i (suc s) v cs m e') in
    cc (here, rest)

pub panels_from-set :
    (f : Field) (i s : ℕ) (cs : List TestCase) (m : Expanded) (tc : TestCase)
    → get_elem? cs i ≡ some tc
    → panels_from s (set cs i (write f tc)) m
      ≡ modify i (λ p. (write f p.0, p.1)) (panels_from s cs m)
unfolding panels_from modify
panels_from-set f i s [] m tc e = cc
panels_from-set f zero s (c ∷ cs) m tc e = cc
panels_from-set f (suc i) s (c ∷ cs) m tc e = cc (panels_from-set f i (suc s) cs m tc e)

pub panels_from-miss :
    (g : TestCase × Bool → TestCase × Bool) (i s : ℕ) (cs : List TestCase) (m : Expanded)
    → get_elem? cs i ≡ none
    → panels_from s cs m ≡ modify i g (panels_from s cs m)
unfolding panels_from modify
panels_from-miss g i s [] m e = refl
panels_from-miss g zero s (c ∷ cs) m e = cc
panels_from-miss g (suc i) s (c ∷ cs) m e = cc (panels_from-miss g i (suc s) cs m e)
