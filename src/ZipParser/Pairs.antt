-- ===== src/ZipParser/Pairs.antt =====
-- Where the test cases of an archive come from.
use mathlib.Core.Option
use campus_compile.Base.{
  includes, true, false, ◌||◌, Option, none, some, List, [], ◌∷◌, String, str_eq, trim, is_truthy,
  All, ◌≡◌, refl, ap, Bool-cases, Option-cases, inl, inr, arith, length, ◌<◌, if◌then◌else◌,
}
use text.Mathlib.TextEquality.{eq_iff}
use campus_compile.Problem.{TestCase}
use campus_compile.AddProblem.{cases}
use campus_compile.ZipParser.{
  Entry, Object, put, get, keys, collect, pair, result, parse_zip_test_cases, clean_name, base_name,
  is_skipped,
}

-- An entry of the archive that is read, whose name has `part` in it and `key` for its base.
pub IsSource : String → String → String → Entry → Type 0
IsSource part key text e =
    (is_skipped e ≡ false)
    × (e.content ≡ some text)
    × (includes (clean_name e.path) part ≡ true)
    × (base_name (clean_name e.path) ≡ key)

from_some {ℓ} : {A : Type ℓ} {a b : A} → some a ≡ some b → a ≡ b
from_some = Option.some_inj.0

module _ (P : Entry → Type 0) where
  -- The text under a key comes from an entry with P.
  abbrev Sourced : String → String × String → Type 0
  Sourced part kv = (e : Entry) × P e × IsSource part kv.0 kv.1 e

  put-Sourced :
      (part key value : String) (o : Object)
      → Sourced part (key, value)
      → All (Sourced part) o
      → All (Sourced part) (put key value o)
  unfolding put
  put-Sourced part key value [] s h = elim (Bool-cases (str_eq key "__proto__")) [
    | inl t ↦ rw t tt
    | inr f ↦ rw f (s, tt)
  ]
  put-Sourced part key value ((k, v) ∷ rest) s (hk, h) = elim (Bool-cases (str_eq k key)) [
    | inl t ↦ let e = (eq_iff k key).0 t in rw (t, e) (s, h)
    | inr f ↦ rw f (hk, put-Sourced part key value rest s h)
  ]

  get-Sourced :
      (part key value : String) (o : Object)
      → All (Sourced part) o
      → get key o ≡ some value
      → Sourced part (key, value)
  unfolding get
  get-Sourced part key value [] h g = cc
  get-Sourced part key value ((k, v) ∷ rest) (hk, h) g = elim (Bool-cases (str_eq k key)) [
    | inl t ↦
        let e = (eq_iff k key).0 t in
        let same : v ≡ value = from_some (rw t at g) in rw (← e, ← same) hk
    | inr f ↦ get-Sourced part key value rest h (rw f at g)
  ]

  -- An entry that is read adds its text under its key, if its name has `part` in it.
  added :
      (part text : String) (e : Entry) (o : Object)
      → P e
      → is_skipped e ≡ false
      → e.content ≡ some text
      → All (Sourced part) o
      → All (Sourced part) (
          if includes (clean_name e.path) part
          then put (base_name (clean_name e.path)) text o
          else o)
  unfolding IsSource
  added part text e o p f read h = elim (Bool-cases (includes (clean_name e.path) part)) [
    | inl t ↦
        rw t (put-Sourced part (base_name (clean_name e.path)) text o (e, p, (f, read, t, refl)) h)
    | inr u ↦ rw u h
  ]

  collect-Sourced :
      (es : List Entry) (inputs outputs i o : Object)
      → All P es
      → All (Sourced "in") inputs
      → All (Sourced "out") outputs
      → collect es inputs outputs ≡ some (i, o)
      → All (Sourced "in") i × All (Sourced "out") o
  unfolding collect
  collect-Sourced [] inputs outputs i o ps hi ho c =
      let same = from_some c in
      let e1 : inputs ≡ i = ap (λ p. p.0) same in
      let e2 : outputs ≡ o = ap (λ p. p.1) same in rw (← e1, ← e2) (hi, ho)
  collect-Sourced (e ∷ es) inputs outputs i o (p, ps) hi ho c = elim (Bool-cases (is_skipped e)) [
    | inl t ↦ collect-Sourced es inputs outputs i o ps hi ho (rw t at c)
    | inr f ↦ elim (Option-cases e.content) [
      | inl none_read ↦ let c' = rw (f, none_read) at c in cc
      | inr (text, read) ↦
          collect-Sourced es _ _ i o ps (added "in" text e inputs p f read hi)
            (added "out" text e outputs p f read ho) (rw (f, read) at c)
    ]
  ]

  -- A test case of the archive: from the texts of two entries with P, one an input and one an output,
  -- with the same base of their names; trimmed, not both empty, and hidden.
  pub IsPaired : TestCase → Type 0
  IsPaired tc =
      (key : String) × (text : String) × (out : String) × Sourced "in" (key, text)
      × Sourced "out" (key, out)
      × (tc ≡ record { input = trim text; expected_output = trim out; is_hidden = true })
      × (is_truthy (some (trim text)) || is_truthy (some (trim out)) ≡ true)

  pair-IsPaired :
      (i o : Object) (ks : List String) (tcs : List TestCase)
      → All (Sourced "in") i
      → All (Sourced "out") o
      → pair i o ks ≡ some tcs
      → All IsPaired tcs
  unfolding pair IsPaired
  pair-IsPaired i o [] tcs hi ho c = let e : [] ≡ tcs = from_some c in rw (← e) tt
  pair-IsPaired i o (key ∷ ks) tcs hi ho c = elim (Option-cases (get key o)) [
    | inl missing ↦ elim (Bool-cases (str_eq key "constructor")) [
      | inl t ↦ let c' = rw (pair, missing, t) at c in cc
      | inr f ↦ pair-IsPaired i o ks tcs hi ho (rw (pair, missing, f) at c)
    ]
    | inr (out, found) ↦ elim (Bool-cases (is_truthy (some out))) [
      | inr f ↦ pair-IsPaired i o ks tcs hi ho (rw (pair, found, f) at c)
      | inl t ↦ elim (Option-cases (get key i)) [
        | inl missing ↦ let c' = rw (pair, found, t, missing) at c in cc
        | inr (text, held) ↦ elim (Option-cases (pair i o ks)) [
          | inl none_more ↦ let c' = rw (pair, found, t, held, none_more) at c in cc
          | inr (more, rest) ↦
              let hs = pair-IsPaired i o ks more hi ho rest in
              elim (Bool-cases (is_truthy (some (trim text)) || is_truthy (some (trim out)))) [
                | inr f ↦
                    let e : more ≡ tcs = from_some (rw (pair, found, t, held, rest, f) at c) in
                    rw (← e) hs
                | inl full ↦
                    let e = from_some (rw (pair, found, t, held, rest, full) at c) in
                    rw (← e) (
                      (
                        key,
                        text,
                        out,
                        get-Sourced "in" key text i hi held,
                        get-Sourced "out" key out o ho found,
                        refl,
                        full,
                      ),
                      hs,
                    )
              ]
        ]
      ]
    ]
  ]

  result-IsPaired :
      (made : Option (List TestCase)) (tcs : List TestCase)
      → ((ts : List TestCase) → made ≡ some ts → All IsPaired ts)
      → result made ≡ cases tcs
      → (0 < length tcs) × All IsPaired tcs
  result-IsPaired none tcs h r = cc
  result-IsPaired (some []) tcs h r = cc
  result-IsPaired (some (tc ∷ ts)) tcs h r =
      let e : tc ∷ ts ≡ tcs = cc in rw (← e) (omega arith, h (tc ∷ ts) refl)

  -- An archive whose entries all have P, when it parses, gives at least one test case, and each is
  -- the trimmed texts of two entries with P that are not skipped, one with "in" and one with "out"
  -- in its name and both with the same digits or base in their names; it is hidden and not empty.
  pub parsed_cases :
      (entries : List Entry) (tcs : List TestCase)
      → All P entries
      → parse_zip_test_cases (some entries) ≡ cases tcs
      → (0 < length tcs) × All IsPaired tcs
  unfolding parse_zip_test_cases
  parsed_cases entries tcs ps parsed = elim (Option-cases (collect entries [] [])) [
    | inl none_read ↦ let c = rw (parse_zip_test_cases, none_read) at parsed in cc
    | inr (objects, read) ↦
        let (hi, ho) = collect-Sourced entries [] [] objects.0 objects.1 ps tt tt read in
        result-IsPaired (pair objects.0 objects.1 (keys objects.0)) tcs
          (λ ts e. pair-IsPaired objects.0 objects.1 (keys objects.0) ts hi ho e)
          (rw (parse_zip_test_cases, read) at parsed)
  ]
