-- ===== src/Base/Trim.antt =====
-- `String.prototype.trim`: the white space of ECMAScript, as code points.
use Prim.Native.Nat.{ℕ}
use Prim.Native.Char.{code}
use Prim.Native.String.{String}
use mathlib.Core.Path.{◌≡◌, refl}
use mathlib.Core.Logic.{inl, inr}
use mathlib.Core.Bool.{Bool, true, false, ◌||◌, ◌&&◌, cond}
use native.Mathlib.Omega.{arith}
use campus_compile.Base.Tests.{leb, ◌==◌, Bool-cases}

unfoldable pub is_white : ℕ → Bool
is_white c =
    leb 9 c && leb c 13
    || c == 32
    || c == 160
    || c == 5760
    || leb 8192 c && leb c 8202
    || c == 8232
    || c == 8233
    || c == 8239
    || c == 8287
    || c == 12288
    || c == 65279

unfoldable pub trim_start : String → String
unfolding is_white
trim_start String.[] = ""
trim_start (String.◌∷◌ c s) = cond (is_white (code c)) (trim_start s) (String.◌∷◌ c s)

abbrev is_nil : String → Bool
is_nil String.[] = true
is_nil (String.◌∷◌ c s) = false

unfoldable pub trim_end : String → String
unfolding is_white
trim_end String.[] = ""
trim_end (String.◌∷◌ c s) =
    let rest = trim_end s in cond (is_white (code c) && is_nil rest) "" (String.◌∷◌ c rest)

unfoldable pub trim : String → String
unfolding trim_start trim_end
trim s = trim_end (trim_start s)

trim_runs : trim "  a b \n" ≡ "a b"
unfolding trim
trim_runs = refl

trim_end_idem : (s : String) → trim_end (trim_end s) ≡ trim_end s
unfolding trim_end
trim_end_idem String.[] = refl
trim_end_idem (String.◌∷◌ c s) = ground (arith, trim_end_idem s)

-- The text is empty or begins with a character that is not white.
abbrev HasInk : String → Type 0
HasInk String.[] = Unit
HasInk (String.◌∷◌ c s) = is_white (code c) ≡ false

trim_start-HasInk : (s : String) → HasInk (trim_start s)
unfolding trim_start
trim_start-HasInk String.[] = tt
trim_start-HasInk (String.◌∷◌ c s) = elim (Bool-cases (is_white (code c))) [
  | inl white ↦ rw white (trim_start-HasInk s)
  | inr ink ↦ rw ink ink
]

trim_end-HasInk : (s : String) → HasInk s → HasInk (trim_end s)
unfolding trim_end
trim_end-HasInk String.[] h = tt
trim_end-HasInk (String.◌∷◌ c s) h = rw h h

trim_start_of_HasInk : (s : String) → HasInk s → trim_start s ≡ s
unfolding trim_start
trim_start_of_HasInk String.[] h = refl
trim_start_of_HasInk (String.◌∷◌ c s) h = rw h

-- Trimming a second time changes nothing.
pub trim_idem : (s : String) → trim (trim s) ≡ trim s
unfolding trim
trim_idem s =
    rw (trim_start_of_HasInk _ (trim_end-HasInk _ (trim_start-HasInk s)))
      (trim_end_idem (trim_start s))
