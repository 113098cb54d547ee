-- ===== src/ZipParser.antt =====
-- The reader of test-case archives: frontend/src/utils/testCaseParser.js. The archive is what JSZip
-- makes of the file: its entries in order, each text `none` when its extraction fails. An object is
-- a list of its keys in the order of their insertion.
pub mod Pairs
use Prim.Native.Char.{Char, code}
use mathlib.Core.Option
use campus_compile.Base.{
  includes, ℕ, zero, suc, ◌+◌, ◌*◌, ◌-◌, Bool, true, false, not, ◌&&◌, ◌||◌, Option, none, some,
  List, [], ◌∷◌, ◌++◌, String, str_eq, to_lower, is_truthy, trim, ltb, leb, ◌==◌, if◌then◌else◌,
  is_some, length, ◌%◌, ◌/◌, map, decimal, template,
}
use campus_compile.Problem.{TestCase}
use campus_compile.AddProblem.{Parsed, failed, cases}

pub record Entry : Type 0 where
  pub path : String
  pub is_dir : Bool
  pub content : Option String

-- The rest of a text behind its last separator, `s.split('/').pop()`; `kept` is the last part so far.
last_part : ℕ → String → String → String
last_part separator kept String.[] = kept
last_part separator kept (String.◌∷◌ c s) =
    let longer = last_part separator (template (kept ∷ String.◌∷◌ c String.[] ∷ [])) s in
    let again = last_part separator String.[] s in if code c == separator then again else longer

-- `s.split('.')[0]`.
first_part : ℕ → String → String
first_part separator String.[] = String.[]
first_part separator (String.◌∷◌ c s) =
    let rest = first_part separator s in
    if code c == separator then String.[] else String.◌∷◌ c rest

abbrev is_digit : Char → Bool
is_digit c = leb 48 (code c) && leb (code c) 57

-- The digits that a text starts with, and the first digits in it: the match of /(\d+)/.
leading_digits : String → String
leading_digits String.[] = String.[]
leading_digits (String.◌∷◌ c s) =
    let rest = leading_digits s in if is_digit c then String.◌∷◌ c rest else String.[]

first_digits : String → Option String
unfolding leading_digits
first_digits String.[] = none
first_digits (String.◌∷◌ c s) =
    let later = first_digits s in
    if is_digit c then some (String.◌∷◌ c (leading_digits s)) else later

unfoldable pub clean_name : String → String
unfolding last_part
clean_name path = to_lower (last_part 47 String.[] path)

unfoldable pub base_name : String → String
unfolding first_digits first_part leading_digits
base_name name = elim (first_digits name) [ some digits ↦ digits | none ↦ first_part 46 name ]

abbrev pub Object : Type 0
Object = List (String × String)

-- `object[key] = value`; a text assigned to `__proto__` is ignored.
unfoldable pub put : String → String → Object → Object
put key value [] = if str_eq key "__proto__" then [] else (key, value) ∷ []
put key value ((k, v) ∷ rest) =
    let later = put key value rest in if str_eq k key then (k, value) ∷ rest else (k, v) ∷ later

unfoldable pub get : String → Object → Option String
get key [] = none
get key ((k, v) ∷ rest) = let later = get key rest in if str_eq k key then some v else later

-- The index that a key is, if it is one: a decimal number as it is printed, below 2^32 - 1.
value_of : ℕ → String → Option ℕ
value_of n String.[] = some n
value_of n (String.◌∷◌ c s) =
    let more = value_of (n * 10 + (code c - 48)) s in if is_digit c then more else none

unfoldable pub index_of : String → Option ℕ
unfolding value_of
index_of key = elim (value_of 0 key) [
  | none ↦ none
  | some n ↦ if str_eq (decimal n) key && ltb n 4294967295 then some n else none
]

-- A key into its place: the indices come first, in ascending order.
place : String → List String → List String
place key [] = key ∷ []
place key (k ∷ ks) =
    let later = k ∷ place key ks in
    elim (index_of k) [
      | none ↦ key ∷ k ∷ ks
      | some m ↦ elim (index_of key) [
        | none ↦ later
        | some n ↦ if leb n m then key ∷ k ∷ ks else later
      ]
    ]

-- The keys of an object in the order of `Object.keys`.
unfoldable pub keys : Object → List String
unfolding place
keys [] = []
keys ((k, v) ∷ rest) = place k (keys rest)

-- Whether an entry is skipped.
unfoldable pub is_skipped : Entry → Bool
unfolding includes
is_skipped e = e.is_dir || (includes e.path "__MACOSX" || includes e.path ".DS_Store")

-- The loop over the entries: the inputs and the outputs, or `none` when an extraction fails.
unfoldable pub collect : List Entry → Object → Object → Option (Object × Object)
unfolding is_skipped clean_name base_name includes
collect [] inputs outputs = some (inputs, outputs)
collect (e ∷ es) inputs outputs =
    let name = clean_name e.path in
    let key = base_name name in
    let skipped = collect es inputs outputs in
    let read : Option (Object × Object) = elim (e.content) [
      | none ↦ none
      | some text ↦
          collect es (if includes name "in" then put key text inputs else inputs)
            (if includes name "out" then put key text outputs else outputs)
    ] in
    if is_skipped e then skipped else read

-- The loop over the inputs' keys. `outputs['constructor']` is inherited when it is not set, and as
-- a function it has no `trim`: the result is `none` when the loop throws.
unfoldable pub pair : Object → Object → List String → Option (List TestCase)
pair inputs outputs [] = some []
pair inputs outputs (key ∷ ks) =
    let rest = pair inputs outputs ks in
    elim (get key outputs) [
      | none ↦ if str_eq key "constructor" then none else rest
      | some out ↦
          if is_truthy (some out)
          then elim (get key inputs) [
            | none ↦ none
            | some text ↦ elim rest [
              | none ↦ none
              | some more ↦ some (
                  if is_truthy (some (trim text)) || is_truthy (some (trim out))
                  then record { input = trim text; expected_output = trim out; is_hidden = true }
                    ∷ more
                  else more)
            ]
          ]
          else rest
    ]

abbrev pub result : Option (List TestCase) → Parsed
result none = failed "Failed to process ZIP file."
result (some []) = failed "No valid (non-empty) input/output files found in ZIP."
result (some (tc ∷ tcs)) = cases (tc ∷ tcs)

-- The whole parser; the archive is `none` when it cannot be loaded.
unfoldable pub parse_zip_test_cases : Option (List Entry) → Parsed
parse_zip_test_cases none = failed "Failed to process ZIP file."
parse_zip_test_cases (some entries) = elim (collect entries [] []) [
  | none ↦ failed "Failed to process ZIP file."
  | some objects ↦ result (pair objects.0 objects.1 (keys objects.0))
]
