-- ===== src/Base/Lists.antt =====
-- Lists measured and indexed by native numbers, under the library's names.
use Prim.Native.Nat.{ℕ, zero, suc, ◌+◌, ◌-◌, ◌≤◌, ◌<◌, min}
use mathlib.Core.Path.{◌≡◌, refl}
use mathlib.Core.Bool.{Bool, false, ◌||◌}
use mathlib.Core.List.{List, [], ◌∷◌, ◌++◌}
use mathlib.Core.Option.{Option, none, some}
use native.Mathlib.Omega.{arith}
use campus_compile.Base.Tests.{if◌then◌else◌}

module _ {ℓ} {A : Type ℓ} where
  abbrev pub length : List A → ℕ
  length [] = 0
  length (x ∷ xs) = suc (length xs)

  abbrev pub get_elem? : List A → ℕ → Option A
  get_elem? [] i = none
  get_elem? (x ∷ xs) zero = some x
  get_elem? (x ∷ xs) (suc i) = get_elem? xs i

  -- A write out of bounds changes nothing.
  abbrev pub set : List A → ℕ → A → List A
  set [] i v = []
  set (x ∷ xs) zero v = v ∷ xs
  set (x ∷ xs) (suc i) v = x ∷ set xs i v

  abbrev pub take : ℕ → List A → List A
  take zero xs = []
  take (suc n) [] = []
  take (suc n) (x ∷ xs) = x ∷ take n xs

  abbrev pub drop : ℕ → List A → List A
  drop zero xs = xs
  drop (suc n) [] = []
  drop (suc n) (x ∷ xs) = drop n xs

  -- `Array.prototype.filter`, `some` and `find`.
  abbrev pub keep_if : (A → Bool) → List A → List A
  keep_if p [] = []
  keep_if p (x ∷ xs) = if p x then x ∷ keep_if p xs else keep_if p xs

  abbrev pub any : (A → Bool) → List A → Bool
  any p [] = false
  any p (x ∷ xs) = p x || any p xs

  abbrev pub find : (A → Bool) → List A → Option A
  find p [] = none
  find p (x ∷ xs) = if p x then some x else find p xs

  -- What holds of every element.
  abbrev pub All {κ} : (A → Type κ) → List A → Type κ
  All P [] = Unit
  All P (x ∷ xs) = P x × All P xs

  pub length-append : (xs ys : List A) → length (xs ++ ys) ≡ length xs + length ys
  length-append [] ys = omega arith
  length-append (x ∷ xs) ys = omega (arith, length-append xs ys)

  pub take-append-drop : (n : ℕ) (xs : List A) → take n xs ++ drop n xs ≡ xs
  take-append-drop zero xs = refl
  take-append-drop (suc n) [] = refl
  take-append-drop (suc n) (x ∷ xs) = rw (take-append-drop n xs)

  pub length-take : (n : ℕ) (xs : List A) → length (take n xs) ≡ min n (length xs)
  length-take zero xs = omega arith
  length-take (suc n) [] = omega arith
  length-take (suc n) (x ∷ xs) = omega (arith, length-take n xs)

  pub length-drop : (n : ℕ) (xs : List A) → length (drop n xs) ≡ length xs - n
  length-drop zero xs = omega arith
  length-drop (suc n) [] = omega arith
  length-drop (suc n) (x ∷ xs) = omega (arith, length-drop n xs)

  pub drop-nil_of_le : (n : ℕ) (xs : List A) → length xs ≤ n → drop n xs ≡ []
  drop-nil_of_le zero [] h = refl
  drop-nil_of_le zero (x ∷ xs) h = elim h [ ]
  drop-nil_of_le (suc n) [] h = refl
  drop-nil_of_le (suc n) (x ∷ xs) h = drop-nil_of_le n xs (omega arith)

  pub drop-add : (m n : ℕ) (xs : List A) → drop (m + n) xs ≡ drop n (drop m xs)
  drop-add zero n xs = let e : zero + n ≡ n = omega arith in rw e
  drop-add (suc m) zero [] = let e : suc m + zero ≡ suc m = omega arith in rw e
  drop-add (suc m) (suc n) [] = let e : suc m + suc n ≡ suc (m + suc n) = omega arith in rw e
  drop-add (suc m) n (x ∷ xs) =
      let e : suc m + n ≡ suc (m + n) = omega arith in rw e (drop-add m n xs)

  pub get_elem?-take-drop :
      (i limit offset : ℕ) (xs : List A)
      → i < limit
      → get_elem? (take limit (drop offset xs)) i ≡ get_elem? xs (offset + i)
  get_elem?-take-drop zero zero zero xs h = elim h [ ]
  get_elem?-take-drop i zero offset xs h = absurd (omega arith)
  get_elem?-take-drop i (suc l) zero [] h = refl
  get_elem?-take-drop zero (suc l) zero (x ∷ xs) h = refl
  get_elem?-take-drop (suc i) (suc l) zero (x ∷ xs) h =
      let e : zero + suc i ≡ suc (zero + i) = omega arith in
      rw e (get_elem?-take-drop i l zero xs (omega arith))
  get_elem?-take-drop i (suc l) (suc o) [] h = refl
  get_elem?-take-drop i (suc l) (suc o) (x ∷ xs) h =
      let e : suc o + i ≡ suc (o + i) = omega arith in rw e (get_elem?-take-drop i (suc l) o xs h)
