-- ===== src/Maputil/StringMaps.antt =====
-- maputil/maputil.go and smap.go: maps of strings. `strings.ToLower` is a parameter.
use goutil.Prelude.{Bool, true, false, List, [], ◌∷◌, Option, none, some, if◌then◌else◌}
use goutil.Text.{Text, text_eq}
use goutil.Strutil.Cut.{is_empty}
use goutil.Maputil.Values.{StringMap, lookup_string, put_string}

-- The loop of `Load`, `MergeMultiSMap` and `MergeStringMap` without its change of case.
unfoldable pub load_smap : StringMap → StringMap → StringMap
unfolding put_string
load_smap [] m = m
load_smap ((k, v) ∷ sub) m = load_smap sub (put_string k v m)

module _ (to_lower : Text → Text) where
  abbrev key_of : Bool → Text → Text
  key_of ignore_case k = if ignore_case then to_lower k else k

  unfoldable pub merge_string_loop : Bool → StringMap → StringMap → StringMap
  unfolding put_string
  merge_string_loop ignore_case [] dst = dst
  merge_string_loop ignore_case ((k, v) ∷ src) dst =
      merge_string_loop ignore_case src (put_string (key_of ignore_case k) v dst)

  -- An empty map on one side leaves the other as it is.
  unfoldable pub merge_string_map : StringMap → StringMap → Bool → StringMap
  unfolding merge_string_loop
  merge_string_map [] dst ignore_case = dst
  merge_string_map (e ∷ src) [] ignore_case = e ∷ src
  merge_string_map (e ∷ src) (f ∷ dst) ignore_case =
      merge_string_loop ignore_case (e ∷ src) (f ∷ dst)

unfoldable pub merge_multi_smap : List StringMap → StringMap → StringMap
unfolding load_smap
merge_multi_smap [] new_mp = new_mp
merge_multi_smap (mp ∷ mps) new_mp = merge_multi_smap mps (load_smap mp new_mp)

unfoldable pub filter_smap : StringMap → StringMap
filter_smap [] = []
filter_smap ((k, v) ∷ sm) = let rest = filter_smap sm in if is_empty v then rest else (k, v) ∷ rest

abbrev pub found : Option Text → Bool
found none = false
found (some v) = true

abbrev pub or_text : Option Text → Text → Text
or_text none def_val = def_val
or_text (some v) def_val = v

-- The methods of `SMap`.
unfoldable pub smap_has : StringMap → Text → Bool
unfolding lookup_string
smap_has m key = found (lookup_string key m)

unfoldable pub smap_has_value : StringMap → Text → Bool
smap_has_value [] val = false
smap_has_value ((k, v) ∷ m) val =
    let rest = smap_has_value m val in if text_eq v val then true else rest

unfoldable pub smap_value : StringMap → Text → Text × Bool
unfolding lookup_string
smap_value m key = elim (lookup_string key m) [ none ↦ ([], false) | some v ↦ (v, true) ]

unfoldable pub smap_default : StringMap → Text → Text → Text
unfolding lookup_string
smap_default m key def_val = or_text (lookup_string key m) def_val

unfoldable pub smap_get : StringMap → Text → Text
unfolding lookup_string
smap_get m key = elim (lookup_string key m) [ none ↦ [] | some v ↦ v ]

unfoldable pub smap_keys : StringMap → List Text
smap_keys [] = []
smap_keys ((k, v) ∷ m) = k ∷ smap_keys m

unfoldable pub smap_values : StringMap → List Text
smap_values [] = []
smap_values ((k, v) ∷ m) = v ∷ smap_values m

unfoldable pub to_kv_pairs : StringMap → List Text
to_kv_pairs [] = []
to_kv_pairs ((k, v) ∷ m) = k ∷ v ∷ to_kv_pairs m
