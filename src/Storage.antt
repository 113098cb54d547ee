-- ===== src/Storage.antt =====
-- The browser's localStorage, as the calls in frontend/src use it: texts under text keys.
use text.Mathlib.TextEquality.{eq_iff}
use campus_compile.Base.{
  Option, none, some, List, [], ◌∷◌, String, str_eq, if◌then◌else◌, ◌≡◌, refl, arith,
}

abbrev pub Storage : Type 0
Storage = List (String × String)

unfoldable pub get_item : String → Storage → Option String
get_item key [] = none
get_item key ((k, v) ∷ rest) = if str_eq k key then some v else get_item key rest

unfoldable pub set_item : String → String → Storage → Storage
set_item key value [] = (key, value) ∷ []
set_item key value ((k, v) ∷ rest) =
    if str_eq k key then (k, value) ∷ rest else (k, v) ∷ set_item key value rest

unfoldable pub remove_item : String → Storage → Storage
remove_item key [] = []
remove_item key ((k, v) ∷ rest) =
    if str_eq k key then remove_item key rest else (k, v) ∷ remove_item key rest

abbrev pub clear : Storage
clear = []

pub get_item-set_item :
    (key j value : String) (s : Storage)
    → get_item j (set_item key value s) ≡ (if str_eq key j then some value else get_item j s)
unfolding get_item set_item
get_item-set_item key j value [] = refl
get_item-set_item key j value ((k, v) ∷ rest) =
    ground (arith, eq_iff k key, eq_iff k j, eq_iff key j, get_item-set_item key j value rest)

pub get_item-remove_item :
    (key j : String) (s : Storage)
    → get_item j (remove_item key s) ≡ (if str_eq key j then none else get_item j s)
unfolding get_item remove_item
get_item-remove_item key j [] = ground (arith, eq_iff key j)
get_item-remove_item key j ((k, v) ∷ rest) =
    ground (arith, eq_iff k key, eq_iff k j, eq_iff key j, get_item-remove_item key j rest)
