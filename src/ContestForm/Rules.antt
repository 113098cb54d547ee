-- ===== src/ContestForm/Rules.antt =====
-- The access rules of a contest: their inputs in frontend/src/pages/AddContest.jsx and EditContest.jsx.
-- A rule that is missing, or is no array, is `none`. Integers are exact.
pub mod Entries
pub mod Typing
use Prim.Native.Char.{Char, code}
use Prim.Native.String
use mathlib.Core.Option
use campus_compile.Base.{
  ℕ, zero, suc, ◌+◌, ◌-◌, ◌*◌, Bool, true, false, not, ◌&&◌, Option, none, some, List, [], ◌∷◌, ◌≡◌,
  refl, map, String, str_eq, ◌==◌, if◌then◌else◌, leb, or_default, keep_if, trim, decimal,
}
use campus_compile.Base.Int.{ℤ, pos, negsuc}

pub data Field : Type 0 where
  allowed_courses allowed_departments allowed_batches : Field
  allowed_sections allowed_student_groups : Field
  allowed_graduation_years : Field

pub record AccessRules : Type 0 where
  pub courses : Option (List String)
  pub departments : Option (List String)
  pub batches : Option (List String)
  pub sections : Option (List String)
  pub student_groups : Option (List String)
  pub graduation_years : Option (List ℤ)

-- `defaultAccessRules`.
unfoldable pub default_access_rules : AccessRules
default_access_rules = record {
  courses = some [];
  departments = some [];
  batches = some [];
  sections = some [];
  student_groups = some [];
  graduation_years = some [];
}

-- A character in front of the first part.
abbrev pub push : Char → List String → List String
push c [] = String.◌∷◌ c String.[] ∷ []
push c (p ∷ ps) = String.◌∷◌ c p ∷ ps

-- `value.split(',')`.
unfoldable pub split : String → List String
split String.[] = String.[] ∷ []
split (String.◌∷◌ c s) =
    let rest = split s in if code c == 44 then String.[] ∷ rest else push c rest

-- `val.join(', ')`.
unfoldable pub join : List String → String
join [] = ""
join (s ∷ []) = s
join (s ∷ t ∷ ss) = String.◌++◌ s (String.◌++◌ ", " (join (t ∷ ss)))

-- The entries of a typed text.
unfoldable pub entries : String → List String
unfolding split trim
entries value = keep_if (λ item. not (str_eq item "")) (map trim (split value))

abbrev is_digit : Char → Bool
is_digit c = leb 48 (code c) && leb (code c) 57

-- The number that the digits at the front go on to write.
digits_from : ℕ → String → ℕ
digits_from n String.[] = n
digits_from n (String.◌∷◌ c s) =
    let rest = digits_from (10 * n + (code c - 48)) s in if is_digit c then rest else n

digits : String → Option ℕ
unfolding digits_from
digits String.[] = none
digits (String.◌∷◌ c s) = if is_digit c then some (digits_from 0 (String.◌∷◌ c s)) else none

abbrev negated : ℕ → ℤ
negated zero = pos 0
negated (suc n) = negsuc n

-- `parseInt(v, 10)` of a trimmed text.
unfoldable pub parse_int : String → Option ℤ
unfolding digits
parse_int String.[] = none
parse_int (String.◌∷◌ c s) =
    if code c == 45
    then Option.map negated (digits s)
    else if code c == 43
    then Option.map pos (digits s)
    else Option.map pos (digits (String.◌∷◌ c s))

unfoldable pub integers : List String → List ℤ
unfolding parse_int
integers [] = []
integers (v ∷ vs) = let rest = integers vs in elim (parse_int v) [ none ↦ rest | some n ↦ n ∷ rest ]

unfoldable pub handle_array_change : Field → String → AccessRules → AccessRules
unfolding entries integers
handle_array_change allowed_courses value r = record r { courses = some (entries value) }
handle_array_change allowed_departments value r = record r { departments = some (entries value) }
handle_array_change allowed_batches value r = record r { batches = some (entries value) }
handle_array_change allowed_sections value r = record r { sections = some (entries value) }
handle_array_change allowed_student_groups value r = record r {
  student_groups = some (entries value);
}
handle_array_change allowed_graduation_years value r = record r {
  graduation_years = some (integers (entries value));
}

unfoldable pub print_int : ℤ → String
unfolding decimal
print_int (pos n) = decimal n
print_int (negsuc n) = String.◌++◌ "-" (decimal (suc n))

-- The text entries of a field, and for the years their digits.
unfoldable pub rule_of : Field → AccessRules → Option (List String)
unfolding print_int
rule_of allowed_courses r = r.courses
rule_of allowed_departments r = r.departments
rule_of allowed_batches r = r.batches
rule_of allowed_sections r = r.sections
rule_of allowed_student_groups r = r.student_groups
rule_of allowed_graduation_years r = Option.map (map print_int) r.graduation_years

unfoldable pub get_rule_value : Field → AccessRules → String
unfolding rule_of join
get_rule_value field r = join (or_default (rule_of field r) [])

entries_runs :
    (entries " B.Tech, ,M.Tech," ≡ "B.Tech" ∷ "M.Tech" ∷ [])
    × (integers (entries "2028, x, -3b") ≡ pos 2028 ∷ negsuc 2 ∷ [])
    × (print_int (negsuc 2) ≡ "-3")
unfolding entries integers print_int decimal
entries_runs = (refl, refl, refl)
