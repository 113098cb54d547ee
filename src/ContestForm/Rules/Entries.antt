-- ===== src/ContestForm/Rules/Entries.antt =====
-- The entries of an access rule against the text that shows them.
use Prim.Native.Char.{Char, code}
use Prim.Native.String
use Prim.Native.String.append
use mathlib.Core.Bool.{cond}
use campus_compile.Base.{
  Bool, true, false, not, List, [], ◌∷◌, map, String, ◌≡◌, inl, inr, refl, ap, sym, ◌∙◌, Bool-cases,
  str_eq, ◌==◌, keep_if, All, trim, trim_start, trim_end, trim_idem, is_white,
}
use campus_compile.ContestForm.Rules.{push, split, join, entries}

-- A text without a comma.
abbrev pub NoComma : String → Type 0
NoComma String.[] = Unit
NoComma (String.◌∷◌ c s) = ((code c == 44) ≡ false) × NoComma s

-- An entry: trimmed, not empty, without a comma.
abbrev pub IsEntry : String → Type 0
IsEntry s = (trim s ≡ s) × (str_eq s "" ≡ false) × NoComma s

-- A text up to a comma is the first part.
split_at_comma :
    (p s : String) → NoComma p → split (String.◌++◌ p (String.◌++◌ "," s)) ≡ p ∷ split s
unfolding split
split_at_comma String.[] s h = rw (append.nil) (rw (append.cons) (rw append.nil refl))
split_at_comma (String.◌∷◌ c p) s (h, hs) =
    rw append.cons (rw (split, h, split_at_comma p s hs) refl)

-- A blank in front.
abbrev blank : String → String
blank y = String.◌∷◌ " " y

comma_blank : (s : String) → String.◌++◌ ", " s ≡ String.◌++◌ "," (blank s)
comma_blank s =
    let under = λ (t u : String) (e : t ≡ u). ap (λ v. String.◌∷◌ "," v) e in
    append.cons "," " " s
    ∙ under (String.◌++◌ " " s) (blank s)
        (append.cons " " "" s ∙ ap (λ v. String.◌∷◌ " " v) (append.nil s))
    ∙ sym (
        append.cons "," "" (blank s)
        ∙ under (String.◌++◌ "" (blank s)) (blank s) (append.nil (blank s)))

split_one : (p : String) → NoComma p → split p ≡ p ∷ []
unfolding split
split_one String.[] h = refl
split_one (String.◌∷◌ c p) (h, hs) = rw (h, split_one p hs) refl

-- The parts of the joined entries: all but the first have a blank in front.
split-join :
    (x : String) (xs : List String)
    → All NoComma (x ∷ xs)
    → split (join (x ∷ xs)) ≡ x ∷ map blank xs
unfolding join split
split-join x [] (h, hs) = split_one x h
split-join x (y ∷ ys) (h, hs) =
    ap (λ t. split (String.◌++◌ x t)) (comma_blank (join (y ∷ ys)))
    ∙ split_at_comma x (blank (join (y ∷ ys))) h
    ∙ ap (λ ps. x ∷ push " " ps) (split-join y ys hs)

trim-blank : (s : String) → trim (blank s) ≡ trim s
unfolding trim trim_start
trim-blank s = refl

keep_if_same :
    (xs : List String) → All IsEntry xs → keep_if (λ item. not (str_eq item "")) (map trim xs) ≡ xs
keep_if_same [] h = refl
keep_if_same (x ∷ xs) ((t, f, n), hs) = rw (t, f, keep_if_same xs hs) refl

kept_blanks :
    (xs : List String)
    → All IsEntry xs
    → keep_if (λ item. not (str_eq item "")) (map trim (map blank xs)) ≡ xs
kept_blanks [] h = refl
kept_blanks (x ∷ xs) ((t, f, n), hs) = rw (trim-blank x, t, f, kept_blanks xs hs) refl

All-NoComma : (xs : List String) → All IsEntry xs → All NoComma xs
All-NoComma [] h = tt
All-NoComma (x ∷ xs) ((t, f, n), hs) = (n, All-NoComma xs hs)

-- The entries of the text that shows some entries are these.
pub entries-join : (xs : List String) → All IsEntry xs → entries (join xs) ≡ xs
unfolding entries split join trim trim_start trim_end
entries-join [] h = refl
entries-join (x ∷ xs) ((t, f, n), hs) =
    rw (split-join x xs (n, All-NoComma xs hs), t, f, kept_blanks xs hs) refl

push-All :
    (c : Char) (ps : List String)
    → (code c == 44) ≡ false
    → All NoComma ps
    → All NoComma (push c ps)
push-All c [] h ps = ((h, tt), tt)
push-All c (p ∷ rest) h (n, ns) = ((h, n), ns)

split-All : (s : String) → All NoComma (split s)
unfolding split
split-All String.[] = (tt, tt)
split-All (String.◌∷◌ c s) = elim (Bool-cases (code c == 44)) [
  | inl comma ↦ rw comma (tt, split-All s)
  | inr other ↦ rw other (push-All c (split s) other (split-All s))
]

trim_start-NoComma : (s : String) → NoComma s → NoComma (trim_start s)
unfolding trim_start
trim_start-NoComma String.[] h = tt
trim_start-NoComma (String.◌∷◌ c s) (h, hs) = elim (Bool-cases (is_white (code c))) [
  | inl white ↦ rw white (trim_start-NoComma s hs)
  | inr ink ↦ rw ink (h, hs)
]

cond-NoComma :
    (b : Bool) (c : Char) (s : String)
    → (code c == 44) ≡ false
    → NoComma s
    → NoComma (cond b "" (String.◌∷◌ c s))
cond-NoComma true c s h hs = tt
cond-NoComma false c s h hs = (h, hs)

trim_end-NoComma : (s : String) → NoComma s → NoComma (trim_end s)
unfolding trim_end
trim_end-NoComma String.[] h = tt
trim_end-NoComma (String.◌∷◌ c s) (h, hs) = cond-NoComma _ c (trim_end s) h (trim_end-NoComma s hs)

kept-All :
    (ps : List String)
    → All NoComma ps
    → All IsEntry (keep_if (λ item. not (str_eq item "")) (map trim ps))
unfolding trim
kept-All [] h = tt
kept-All (p ∷ ps) (h, hs) = elim (Bool-cases (str_eq (trim p) "")) [
  | inl empty ↦ rw empty (kept-All ps hs)
  | inr full ↦ rw full (
    (trim_idem p, full, trim_end-NoComma (trim_start p) (trim_start-NoComma p h)),
    kept-All ps hs,
  )
]

-- Whatever is typed, its entries are trimmed, not empty and without a comma.
pub entries-IsEntry : (value : String) → All IsEntry (entries value)
unfolding entries
entries-IsEntry value = kept-All (split value) (split-All value)
