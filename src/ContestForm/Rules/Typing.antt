-- ===== src/ContestForm/Rules/Typing.antt =====
-- What the inputs of the access rules in EditContest.jsx take, which show the entries again after
-- every key.
use Prim.Native.Char.{code}
use Prim.Native.String
use Prim.Native.String.append
use campus_compile.Base.{
  not, some, List, [], ◌∷◌, ◌++◌, map, String, ◌≡◌, refl, ap, sym, ◌∙◌, Bool-cases, str_eq, ◌==◌,
  keep_if, All, trim, trim_start, trim_end, or_default, inl, inr,
}
use campus_compile.ContestForm.Rules.{
  split, join, entries, AccessRules, Field, allowed_courses, allowed_departments, allowed_batches,
  allowed_sections, allowed_student_groups, allowed_graduation_years, handle_array_change,
  get_rule_value, rule_of,
}
use campus_compile.ContestForm.Rules.Entries.{IsEntry, entries-join, entries-IsEntry}

-- A field of texts.
abbrev pub IsText : Field → Type 0
IsText allowed_graduation_years = ⊥
IsText _ = Unit

set_text :
    (field : Field) (value : String) (r : AccessRules)
    → IsText field
    → rule_of field (handle_array_change field value r) ≡ some (entries value)
unfolding handle_array_change rule_of
set_text allowed_courses value r t = refl
set_text allowed_departments value r t = refl
set_text allowed_batches value r t = refl
set_text allowed_sections value r t = refl
set_text allowed_student_groups value r t = refl
set_text allowed_graduation_years value r t = elim t [ ]

split_cons : (s : String) → (p : String) × (ps : List String) × (split s ≡ p ∷ ps)
unfolding split
split_cons String.[] = ("", [], refl)
split_cons (String.◌∷◌ c s) = elim (Bool-cases (code c == 44)) [
  | inl comma ↦ rw comma ("", split s, refl)
  | inr other ↦ let (p, ps, e) = split_cons s in rw (other, e) (String.◌∷◌ c p, ps, refl)
]

-- A comma at the end begins an empty part.
split-append_comma : (s : String) → split (String.◌++◌ s ",") ≡ split s ++ "" ∷ []
unfolding split
split-append_comma String.[] = unfold split in refl
split-append_comma (String.◌∷◌ c s) = rw append.cons (elim (Bool-cases (code c == 44)) [
  | inl comma ↦ rw (split, comma, split-append_comma s) refl
  | inr other ↦ let (p, ps, e) = split_cons s in rw (split, other, split-append_comma s, e) refl
])

kept_empty :
    (ps : List String)
    → keep_if (λ item. not (str_eq item "")) (map trim (ps ++ "" ∷ []))
      ≡ keep_if (λ item. not (str_eq item "")) (map trim ps)
unfolding trim trim_start trim_end
kept_empty [] = refl
kept_empty (p ∷ ps) = rw (kept_empty ps) refl

entries-append_comma : (value : String) → entries (String.◌++◌ value ",") ≡ entries value
unfolding entries
entries-append_comma value = rw (split-append_comma value) (kept_empty (split value))

-- A text rule that is read from a text, shown, and read again, is the same rule.
pub shown_again :
    (field : Field) (value : String) (r : AccessRules)
    → IsText field
    → let r' = handle_array_change field value r in
      rule_of field (handle_array_change field (get_rule_value field r') r') ≡ rule_of field r'
unfolding get_rule_value
shown_again field value r t =
    let r' = handle_array_change field value r in
    let e = set_text field value r t in
    set_text field (get_rule_value field r') r' t
    ∙ ap some (
        ap (λ o. entries (join (or_default o []))) e
        ∙ entries-join (entries value) (entries-IsEntry value))
    ∙ sym e

-- A comma typed at the end of the text that shows a text rule is lost: when the rule's entries are
-- trimmed, not empty and without commas, as every rule that was read from a text is, the input
-- shows the same text as before. So no second entry can be begun by typing it.
pub typed_comma_lost :
    (field : Field) (r : AccessRules)
    → IsText field
    → All IsEntry (or_default (rule_of field r) [])
    → let shown = get_rule_value field r in
      get_rule_value field (handle_array_change field (String.◌++◌ shown ",") r) ≡ shown
unfolding get_rule_value
typed_comma_lost field r t es =
    let shown = get_rule_value field r in
    ap (λ o. join (or_default o [])) (set_text field (String.◌++◌ shown ",") r t)
    ∙ ap join (entries-append_comma shown ∙ entries-join (or_default (rule_of field r) []) es)
