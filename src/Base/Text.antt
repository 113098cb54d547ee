-- ===== src/Base/Text.antt =====
-- Text as the native `String`, compared whole; template literals are joined from their parts.
use Prim.Native.Nat.{ℕ, zero, suc, ◌/◌, ◌%◌}
use Prim.Native.Char.{Char, code}
use Prim.Native.String
use Prim.Native.String.{String}
use mathlib.Core.Bool.{Bool, true, false, ◌||◌, ◌&&◌}
use mathlib.Core.List.{List, [], ◌∷◌}
use mathlib.Core.Path.{◌≡◌, refl}
use mathlib.Core.Option.{Option, none, some}
use text.Mathlib.Text.{◌==◌ as same_text}
use campus_compile.Base.Tests.{◌==◌, ltb, if◌then◌else◌}

abbrev pub str_eq : String → String → Bool
str_eq = same_text

-- A template literal, from its parts.
abbrev pub template : List String → String
template [] = ""
template (s ∷ ss) = String.◌++◌ s (template ss)

-- `[…].includes(text)`.
abbrev pub one_of : String → List String → Bool
one_of s [] = false
one_of s (t ∷ ts) = str_eq s t || one_of s ts

-- `a || b` on texts: an empty or missing text gives way.
abbrev pub is_truthy : Option String → Bool
is_truthy none = false
is_truthy (some String.[]) = false
is_truthy (some (String.◌∷◌ c s)) = true

abbrev pub or_text : Option String → Option String → Option String
or_text a b = if is_truthy a then a else b

abbrev pub text_or : Option String → String → String
text_or none d = d
text_or (some String.[]) d = d
text_or (some (String.◌∷◌ c s)) d = String.◌∷◌ c s

-- `toLowerCase` on the ASCII letters; other characters are left as they are.
abbrev letters : List (Char × Char)
letters =
    ("A", "a")
    ∷ ("B", "b")
    ∷ ("C", "c")
    ∷ ("D", "d")
    ∷ ("E", "e")
    ∷ ("F", "f")
    ∷ ("G", "g")
    ∷ ("H", "h")
    ∷ ("I", "i")
    ∷ ("J", "j")
    ∷ ("K", "k")
    ∷ ("L", "l")
    ∷ ("M", "m")
    ∷ ("N", "n")
    ∷ ("O", "o")
    ∷ ("P", "p")
    ∷ ("Q", "q")
    ∷ ("R", "r")
    ∷ ("S", "s")
    ∷ ("T", "t")
    ∷ ("U", "u")
    ∷ ("V", "v")
    ∷ ("W", "w")
    ∷ ("X", "x")
    ∷ ("Y", "y")
    ∷ ("Z", "z")
    ∷ []

lower_from : List (Char × Char) → Char → Char
lower_from [] c = c
lower_from ((upper, lower) ∷ rest) c = if code upper == code c then lower else lower_from rest c

unfoldable pub to_lower : String → String
unfolding lower_from
to_lower String.[] = ""
to_lower (String.◌∷◌ c s) = String.◌∷◌ (lower_from letters c) (to_lower s)

-- A number in decimal, as a template literal prints it. A fuel of `n` is more than its digits.
abbrev digit : ℕ → String
digit zero = "0"
digit (suc zero) = "1"
digit (suc (suc zero)) = "2"
digit (suc (suc (suc zero))) = "3"
digit (suc (suc (suc (suc zero)))) = "4"
digit (suc (suc (suc (suc (suc zero))))) = "5"
digit (suc (suc (suc (suc (suc (suc zero)))))) = "6"
digit (suc (suc (suc (suc (suc (suc (suc zero))))))) = "7"
digit (suc (suc (suc (suc (suc (suc (suc (suc zero)))))))) = "8"
digit _ = "9"

decimal_from : ℕ → ℕ → String
decimal_from zero n = digit (n % 10)
decimal_from (suc fuel) n = elim (ltb n 10) [
  | true ↦ digit n
  | false ↦ String.◌++◌ (decimal_from fuel (n / 10)) (digit (n % 10))
]

unfoldable pub decimal : ℕ → String
unfolding decimal_from
decimal n = decimal_from n n

decimal_runs : (decimal 0 ≡ "0") × (decimal 1024 ≡ "1024") × (to_lower "AdMin" ≡ "admin")
unfolding decimal to_lower
decimal_runs = (refl, refl, refl)

unfoldable pub starts_with : String → String → Bool
starts_with String.[] s = true
starts_with (String.◌∷◌ p ps) String.[] = false
starts_with (String.◌∷◌ p ps) (String.◌∷◌ c cs) = code p == code c && starts_with ps cs

-- `s.includes(part)`.
unfoldable pub includes : String → String → Bool
unfolding starts_with
includes String.[] part = starts_with part String.[]
includes (String.◌∷◌ c s) part = starts_with part (String.◌∷◌ c s) || includes s part

-- `s.substring(0, n)`, for characters of one code unit.
unfoldable pub prefix : ℕ → String → String
prefix zero s = String.[]
prefix (suc n) String.[] = String.[]
prefix (suc n) (String.◌∷◌ c s) = String.◌∷◌ c (prefix n s)
