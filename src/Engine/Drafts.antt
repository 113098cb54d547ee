-- ===== src/Engine/Drafts.antt =====
-- Drafts: what a save keeps, and when a load gives it back.
use text.Mathlib.TextEquality.{eq_iff}
use text.Mathlib.TextPositions.{eq_refl}
use campus_compile.Base.{
  true, Option, none, some, List, [], ◌∷◌, String, ◌≡◌, ◌≢◌, refl, arith, str_eq, is_truthy,
  if◌then◌else◌,
}
use campus_compile.Engine.{
  Engine, Draft, draft, draft_key, lookup_draft, put_draft, remove_draft, load_draft, save_draft,
  boilerplates, cpp_template, differs,
}

lookup_draft-put_draft :
    (key j : String) (d : Draft) (ds : List (String × Draft))
    → lookup_draft j (put_draft key d ds) ≡ (if str_eq key j then some d else lookup_draft j ds)
unfolding lookup_draft put_draft
lookup_draft-put_draft key j d [] = refl
lookup_draft-put_draft key j d ((k, c) ∷ ds) =
    ground (arith, eq_iff k key, eq_iff k j, eq_iff key j, lookup_draft-put_draft key j d ds)

lookup_draft-remove_draft :
    (key j : String) (ds : List (String × Draft))
    → lookup_draft j (remove_draft (some key) ds)
      ≡ (if str_eq key j then none else lookup_draft j ds)
unfolding lookup_draft remove_draft
lookup_draft-remove_draft key j [] = ground (arith, eq_iff key j)
lookup_draft-remove_draft key j ((k, c) ∷ ds) =
    ground (arith, eq_iff k key, eq_iff k j, eq_iff key j, lookup_draft-remove_draft key j ds)

differs_of_ne : (o : Option String) (code : String) → o ≢ some code → differs o code ≡ true
differs_of_ne none code h = refl
differs_of_ne (some t) code h = ground (arith, eq_iff code t)

saved :
    (e : Engine) (key : String)
    → draft_key e ≡ some key
    → is_truthy (some e.code) ≡ true
    → boilerplates e.language ≢ some e.code
    → lookup_draft key (save_draft e).drafts ≡ some (draft e.language e.code)
unfolding save_draft
saved e key k full edited = ground (
  arith,
  lookup_draft-put_draft key key (draft e.language e.code) e.drafts,
  eq_refl key,
  differs_of_ne (boilerplates e.language) e.code edited,
)

loaded :
    (e : Engine) (key language code : String)
    → draft_key e ≡ some key
    → lookup_draft key e.drafts ≡ some (draft language code)
    → ((load_draft e).code ≡ code) × ((load_draft e).language ≡ language)
unfolding load_draft
loaded e key language code k held = (ground arith, ground arith)

load_draft_missing :
    (e : Engine) (key : String)
    → draft_key e ≡ some key
    → lookup_draft key e.drafts ≡ none
    → load_draft e ≡ record e { code = cpp_template }
unfolding load_draft
load_draft_missing e key k held = ground arith

-- Code that is not empty and is not its language's template, saved for a signed-in user, comes
-- back with its language when a page with the same draft key loads its draft from the store that
-- the save left.
pub load_draft-save_draft :
    (e e' : Engine) (key : String)
    → draft_key e ≡ some key
    → draft_key e' ≡ some key
    → e'.drafts ≡ (save_draft e).drafts
    → is_truthy (some e.code) ≡ true
    → boilerplates e.language ≢ some e.code
    → ((load_draft e').code ≡ e.code) × ((load_draft e').language ≡ e.language)
load_draft-save_draft e e' key k k' store full edited =
    loaded e' key e.language e.code k' (rw store (saved e key k full edited))

-- With no draft under its key, a page loads the C++ template and leaves the language as it was.
-- When that is another language, with a template of its own other than the C++ one, the save that
-- follows stores the C++ template as that language's code.
pub load-save_mismatch :
    (e : Engine) (key : String)
    → draft_key e ≡ some key
    → lookup_draft key e.drafts ≡ none
    → boilerplates e.language ≢ some cpp_template
    → lookup_draft key (save_draft (load_draft e)).drafts ≡ some (draft e.language cpp_template)
unfolding draft_key boilerplates
load-save_mismatch e key k missing other =
    rw (load_draft_missing e key k missing)
      (saved (record e { code = cpp_template }) key k refl other)
