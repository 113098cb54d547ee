-- ===== src/Problem/Accordion/Refinement.antt =====
-- Editing the accordion refines editing a list of panels.
use mathlib.Core.List.{append-nil}
use campus_compile.Base.{
  ℕ, zero, suc, ◌+◌, ◌-◌, ◌≤◌, ◌<◌, ◌≡◌, refl, ap, Bool, true, false, not, none, List, [], ◌∷◌,
  ◌++◌, map, arith, ltb, length, get_elem?, set, if◌then◌else◌, inl, inr, ◌⊎◌, ◌∙◌, Option-cases,
  length-append,
}
use campus_compile.Problem.{TestCase}
use campus_compile.Problem.Accordion.{
  Expanded, lookup, put, is_open, Accordion, blank, toggle_test_case, handle_add_test_case,
  erase_idx, remap, handle_remove_test_case, Field, write, update_test_case, append_parsed,
  new_form,
}
use campus_compile.Problem.Accordion.Panels.{
  panels, panels_from, IsObject, put-IsObject, remap-IsObject, is_open-remap, is_open-put,
  lookup-put, lookup-remap, panels_from-erase_idx, panels_from-same, panels_from-append,
  panels_from-put, panels_from-set, panels_from-miss, modify,
}
use campus_compile.Problem.Accordion.Actions.{
  Action, toggle, add, remove, update, upload, act, run, closed, act_panels, run_panels, IsValid,
}

-- A new problem's form is valid.
pub new_form-IsValid : IsValid new_form
unfolding lookup
new_form-IsValid = record { object = (refl, tt); bounded = λ k h p. ground arith }

-- A write at or past the number of cases changes none of the panels that stand.
panels_from-beyond :
    (i : ℕ) (v : Bool) (cs : List TestCase) (m : Expanded)
    → length cs ≤ i
    → panels_from 0 cs (put i v m) ≡ panels_from 0 cs m
panels_from-beyond i v cs m h =
    panels_from-same 0 cs m (put i v m) (λ j le lt. ground (arith, is_open-put i j v m))

panels_from-one :
    (c : TestCase) (n s : ℕ) (m : Expanded)
    → s ≡ n
    → panels_from s (c ∷ []) (put n true m) ≡ (c, true) ∷ []
unfolding panels_from
panels_from-one c n s m e = ground (arith, is_open-put n s true m)

add-panels : (a : Accordion) → panels (handle_add_test_case a) ≡ act_panels (panels a) add
unfolding panels handle_add_test_case
add-panels a =
    let cs = a.test_cases in
    let m = a.expanded_cases in
    let n = length cs in
    cc (
      panels_from-append 0 cs (blank true ∷ []) (put n true m),
      panels_from-beyond n true cs m (omega arith),
      panels_from-one (blank true) n (0 + n) m (omega arith),
    )

toggle-panels :
    (i : ℕ) (a : Accordion) → panels (toggle_test_case i a) ≡ act_panels (panels a) (toggle i)
unfolding panels toggle_test_case
toggle-panels i a =
    let z : 0 + i ≡ i = omega arith in
    let v = not (is_open i a.expanded_cases) in
    let e : v ≡ not (is_open (0 + i) a.expanded_cases) = rw z in
    rw z at (panels_from-put not i 0 v a.test_cases a.expanded_cases e)

remove-panels :
    (i : ℕ) (a : Accordion)
    → IsObject a.expanded_cases
    → panels (handle_remove_test_case i a) ≡ act_panels (panels a) (remove i)
unfolding panels handle_remove_test_case
remove-panels i a h =
    let z : 0 + i ≡ i = omega arith in
    panels_from-erase_idx i 0 a.test_cases a.expanded_cases (remap i [] a.expanded_cases)
      (λ j. rw z (is_open-remap i j a.expanded_cases h))

update-panels :
    (i : ℕ) (f : Field) (a : Accordion)
    → panels (update_test_case i f a) ≡ act_panels (panels a) (update i f)
unfolding panels update_test_case
update-panels i f a = elim (Option-cases (get_elem? a.test_cases i)) [
  | inl missed ↦
      rw (missed, update_test_case)
        (panels_from-miss (λ p. (write f p.0, p.1)) i 0 a.test_cases a.expanded_cases missed)
  | inr (tc, found) ↦
      rw (found, update_test_case) (panels_from-set f i 0 a.test_cases a.expanded_cases tc found)
]

panels_from-closed :
    (s : ℕ) (cs : List TestCase) (m : Expanded)
    → ((j : ℕ) → s ≤ j → is_open j m ≡ false)
    → panels_from s cs m ≡ map (λ d. (d, false)) cs
unfolding panels_from
panels_from-closed s [] m h = refl
panels_from-closed s (c ∷ cs) m h =
    cc (h s (omega arith), panels_from-closed (suc s) cs m (λ j le. h j (omega arith)))

-- Cases appended behind the others are closed, but for the first of a list that was empty.
appended :
    (start : ℕ) (cs parsed : List TestCase) (m : Expanded)
    → ((k : ℕ) → length cs ≤ k → 0 < k → lookup k m ≡ none)
    → (start ≡ 0) ⊎ (0 < length cs)
    → modify start (λ p. (p.0, true)) (panels_from 0 (cs ++ parsed) m)
      ≡ modify start (λ p. (p.0, true)) (panels_from 0 cs m ++ closed parsed)
unfolding panels_from modify
appended start [] [] m free which = refl
appended start [] (c ∷ cs) m free (inl e) =
    cc (e, panels_from-closed 1 cs m (λ j le. ground (arith, free j)))
appended start [] (c ∷ cs) m free (inr some_case) = absurd (omega arith)
appended start (d ∷ ds) parsed m free which =
    let n = length (d ∷ ds) in
    cc (
      panels_from-append 0 (d ∷ ds) parsed m,
      panels_from-closed (0 + n) parsed m (λ j le. ground (arith, free j)),
    )

upload-panels :
    (start : ℕ) (parsed : List TestCase) (a : Accordion)
    → IsValid a
    → (start ≡ 0) ⊎ (0 < length a.test_cases)
    → panels (act a (upload start parsed)) ≡ act_panels (panels a) (upload start parsed)
unfolding panels act append_parsed
upload-panels start parsed a valid which =
    let z : 0 + start ≡ start = omega arith in
    let cs = a.test_cases ++ parsed in
    rw z at (panels_from-put (λ b. true) start 0 true cs a.expanded_cases refl)
    ∙ appended start a.test_cases parsed a.expanded_cases valid.bounded which

-- A panel that can be toggled is on the screen, and so is the one that an upload opens; while an
-- archive is read, not every case is removed.
abbrev pub IsPossible : Accordion → Action → Type 0
IsPossible a (toggle i) = i < length a.test_cases
IsPossible a (upload start parsed) =
    (start < length a.test_cases + length parsed) × ((start ≡ 0) ⊎ (0 < length a.test_cases))
IsPossible a e = Unit

act-panels :
    (a : Accordion) (e : Action)
    → IsPossible a e
    → IsValid a
    → panels (act a e) ≡ act_panels (panels a) e
unfolding act
act-panels a (toggle i) p v = toggle-panels i a
act-panels a add p v = add-panels a
act-panels a (remove i) p v = remove-panels i a v.object
act-panels a (update i f) p v = update-panels i f a
act-panels a (upload start parsed) (lt, which) v = upload-panels start parsed a v which

pub length-erase_idx :
    (i : ℕ) (cs : List TestCase)
    → length (erase_idx i cs) ≡ (if ltb i (length cs) then length cs - 1 else length cs)
unfolding erase_idx
length-erase_idx i [] = ground arith
length-erase_idx zero (c ∷ cs) = ground arith
length-erase_idx (suc i) (c ∷ cs) = ground (arith, length-erase_idx i cs)

pub length-set : (i : ℕ) (cs : List TestCase) (c : TestCase) → length (set cs i c) ≡ length cs
length-set i [] c = refl
length-set zero (d ∷ cs) c = refl
length-set (suc i) (d ∷ cs) c = ap suc (length-set i cs c)

remove-bounded :
    (i : ℕ) (a : Accordion)
    → IsValid a
    → (k : ℕ) → length (erase_idx i a.test_cases) ≤ k
    → 0 < k
    → lookup k (remap i [] a.expanded_cases) ≡ none
unfolding lookup
remove-bounded i a v k h p = ground (
  arith,
  lookup-remap i k [] a.expanded_cases v.object,
  length-erase_idx i a.test_cases,
  v.bounded (k + 1),
  v.bounded k,
)

abbrev pub CanRun : Accordion → List Action → Type 0
CanRun a [] = Unit
CanRun a (e ∷ es) = IsPossible a e × CanRun (act a e) es

module _ (a : Accordion) (v : IsValid a) where
  put-IsValid :
      (i : ℕ) (b : Bool) (cs : List TestCase)
      → i < length a.test_cases + length cs
      → IsValid
          (record { test_cases = a.test_cases ++ cs; expanded_cases = put i b a.expanded_cases })
  put-IsValid i b cs lt = record {
    object = put-IsObject i b a.expanded_cases v.object;
    bounded = λ k h p.
        ground
          (arith, length-append a.test_cases cs, lookup-put i k b a.expanded_cases, v.bounded k);
  }

  set-IsValid : (i : ℕ) (c : TestCase) → IsValid (record a { test_cases = set a.test_cases i c })
  set-IsValid i c = record {
    object = v.object;
    bounded = λ k h p. v.bounded k (omega (arith, length-set i a.test_cases c)) p;
  }

pub act-IsValid : (a : Accordion) (e : Action) → IsPossible a e → IsValid a → IsValid (act a e)
unfolding act toggle_test_case handle_add_test_case handle_remove_test_case update_test_case
    append_parsed
act-IsValid a (toggle i) lt v =
    rw (append-nil a.test_cases) at
      (put-IsValid a v i (not (is_open i a.expanded_cases)) [] (omega arith))
act-IsValid a add p v = put-IsValid a v (length a.test_cases) true (blank true ∷ []) (omega arith)
act-IsValid a (remove i) p v = record {
  object = remap-IsObject i [] a.expanded_cases tt;
  bounded = remove-bounded i a v;
}
act-IsValid a (update i f) p v = elim (Option-cases (get_elem? a.test_cases i)) [
  | inl missed ↦ rw (missed, update_test_case) v
  | inr (tc, found) ↦ rw (found, update_test_case) (set-IsValid a v i (write f tc))
]
act-IsValid a (upload start parsed) (lt, which) v = put-IsValid a v start true parsed lt

-- From a valid state, adding, removing, toggling and editing test cases and the ends of uploads act
-- on the panels shown as the same actions act on a plain list of panels: no action moves an open
-- flag to another case, and a removal takes its own panel alone. An upload appends its cases closed
-- and opens the panel at the index that it captured when the reading of its archive began: that of
-- its first case, unless cases were added or removed meanwhile. Toggled panels are on the screen; the
-- panel that an upload opens exists when it ends, and then some case was left, unless it captured 0.
pub panels-run :
    (a : Accordion) (es : List Action)
    → IsValid a
    → CanRun a es
    → (panels (run a es) ≡ run_panels (panels a) es) × IsValid (run a es)
unfolding run run_panels
panels-run a [] v ok = (refl, v)
panels-run a (e ∷ es) v (possible, ok) =
    let (rest, valid) = panels-run (act a e) es (act-IsValid a e possible v) ok in
    (rw (← act-panels a e possible v) rest, valid)
