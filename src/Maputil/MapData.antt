-- ===== src/Maputil/MapData.antt =====
-- maputil/data.go: `Data`, a map with lookups by path.
use goutil.Prelude.{Bool, true, false, List, [], ◌∷◌, Option, none, some, if◌then◌else◌}
use goutil.Prelude.Outcome.{Outcome, done, ◌>>=◌}
use goutil.Text.{Text, contains_char}
use goutil.Maputil.Values.{Any, null, text, amap, Fields, end, field, StringMap, lookup, put}
use goutil.Maputil.Get.{whole_or, get_by_path}

-- `Data.GetByPath`; only a path with a dot is split.
unfoldable pub data_get_by_path : Text → Fields → Outcome (Option Any)
unfolding get_by_path lookup
data_get_by_path path d =
    whole_or (if contains_char path b'.' then get_by_path path d else done none) (lookup path d)

abbrev pub is_some : Option Any → Bool
is_some none = false
is_some (some v) = true

unfoldable pub data_has : Fields → Text → Outcome Bool
unfolding data_get_by_path
data_has d key = do r ← data_get_by_path key d; done (is_some r)

abbrev pub any_or : Any → Option Any → Any
any_or def none = def
any_or def (some v) = v

unfoldable pub data_get : Fields → Text → Outcome Any
unfolding data_get_by_path
data_get d key = do r ← data_get_by_path key d; done (any_or null r)

unfoldable pub data_default : Fields → Text → Any → Outcome Any
unfolding data_get_by_path
data_default d key def = do r ← data_get_by_path key d; done (any_or def r)

unfoldable pub data_set : Fields → Text → Any → Fields
unfolding put
data_set d key val = put key val d

-- A value that is no `map[string]any` gives nil.
abbrev pub sub_data : Option Any → Option Fields
sub_data (some (amap fs)) = some fs
sub_data _ = none

unfoldable pub data_sub : Fields → Text → Outcome (Option Fields)
unfolding data_get_by_path
data_sub d key = do r ← data_get_by_path key d; done (sub_data r)

unfoldable pub data_load : Fields → Fields → Fields
unfolding put
data_load end d = d
data_load (field k v sub) d = data_load sub (put k v d)

unfoldable pub data_load_smap : StringMap → Fields → Fields
unfolding put
data_load_smap [] d = d
data_load_smap ((k, v) ∷ smp) d = data_load_smap smp (put k (text v) d)

unfoldable pub data_keys : Fields → List Text
data_keys end = []
data_keys (field k v d) = k ∷ data_keys d
