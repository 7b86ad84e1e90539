-- ===== src/Maputil/Make.antt =====
-- maputil/maputil.go and setval.go: a map with one value at a path of keys.
use goutil.Prelude.{
  ℕ, zero, suc, Bool, true, false, not, List, [], ◌∷◌, Option, none, some, if◌then◌else◌, take,
  drop, leb, ◌^◌, ◌-◌,
}
use mathlib.Core.List.{reverse}
use goutil.Prelude.Int.{ℤ, pos, negsuc}
use goutil.Prelude.Outcome.{Outcome, done, panics, ◌>>=◌}
use goutil.Text.{Text, codes, has_suffix, index_char, split_char, drop_last}
use goutil.Strutil.Cut.{is_empty}
use goutil.Conv.{ConvError}
use goutil.Conv.Parse.{parse_int}
use goutil.Maputil.Values.{
  Any, null, text, other, smap, amap, imap, maps, slice, Fields, end, field, Maps, no_maps,
  map_item, Items, nil, cons,
}

abbrev pub index_result : Text → Text → ℤ × Option ConvError → Text × ℤ × Bool
index_result key name (z, none) = (name, z, true)
index_result key name (z, some e) = (key, pos 0, false)

-- `key[pos+1 : len(key)-1]`
abbrev pub inner_text : Text → ℕ → Text
inner_text key i = drop_last (drop (suc i) key)

-- The index between the brackets; without one it is 0.
abbrev pub bracket_index : Text → ℕ → Text × ℤ × Bool
bracket_index key i =
    if is_empty (inner_text key i)
    then (take i key, pos 0, true)
    else index_result key (take i key) (parse_int (inner_text key i))

-- What follows the search for the bracket.
abbrev pub at_bracket : Text → ℤ → Text × ℤ × Bool
at_bracket key (negsuc i) = (key, pos 0, false)
at_bracket key (pos zero) = (key, pos 0, false)
at_bracket key (pos (suc i)) =
    if not (has_suffix key (codes "]")) then (key, pos 0, false) else bracket_index key (suc i)

-- `parseArrKeyIndex`: "arr[2]" is the name "arr" with the index 2.
unfoldable pub parse_arr_key_index : Text → Text × ℤ × Bool
parse_arr_key_index key = at_bracket key (index_char key b'[')

-- The zero value of the type of a value.
abbrev pub zero_of : Any → Any
zero_of null = null
zero_of (text t) = text []
zero_of (other n) = other 0
zero_of (smap m) = smap []
zero_of (amap fs) = amap end
zero_of (imap fs) = imap end
zero_of (maps ms) = maps no_maps
zero_of (slice vs) = slice nil

-- `idx` zero values and then the value.
abbrev pub zeros_before : ℕ → Any → Items
zeros_before zero v = cons v nil
zeros_before (suc i) v = cons (zero_of v) (zeros_before i v)

abbrev pub empty_maps_before : ℕ → Fields → Maps
empty_maps_before zero fs = map_item fs no_maps
empty_maps_before (suc i) fs = map_item end (empty_maps_before i fs)

-- The slice with the value behind `idx` zero values. A nil value has no type.
abbrev pub filled : Any → ℕ → Outcome Any
filled null i = panics
filled (amap fs) i = done (maps (empty_maps_before i fs))
filled v i = done (slice (zeros_before i v))

-- The slice of `idx+1` values of the type of the value, with the value at the index. The length of
-- a negative index is not above 0, and that of the largest int wraps around to a negative number; both
-- panic. The memory is taken to be enough.
unfoldable pub slice_with : Any → ℤ → Outcome Any
slice_with v (negsuc n) = panics
slice_with v (pos i) = if leb (2 ^ 63 - 1) i then panics else filled v i

-- The loop over the reversed keys.
abbrev pub wrap_keys : Fields → List Text → Fields
wrap_keys mp [] = mp
wrap_keys mp (k ∷ ks) = wrap_keys (field k (amap mp) end) ks

abbrev pub first_of_reversed : Any → List Text → Outcome Fields
first_of_reversed val [] = panics
first_of_reversed val (k ∷ ks) = done (wrap_keys (field k val end) ks)

abbrev pub last_key : Text → List Text → Text
last_key k [] = k
last_key k (j ∷ ks) = last_key j ks

-- `keys[size-1] = newK`
abbrev pub set_last : Text → Text → List Text → List Text
set_last new k [] = new ∷ []
set_last new k (j ∷ ks) = k ∷ set_last new j ks

-- The value in its slice and the keys with the name, where the last key has an index.
abbrev pub with_index : Any → Text → List Text → Text × ℤ × Bool → Outcome (Any × List Text)
with_index val k ks (new, z, true) = slice_with val z >>= (λ v. done (v, set_last new k ks))
with_index val k ks (new, z, false) = done (val, k ∷ ks)

-- `MakeByKeys`; there is no last key of an empty list.
unfoldable pub make_by_keys : List Text → Any → Outcome Fields
unfolding parse_arr_key_index slice_with
make_by_keys [] val = panics
make_by_keys (k ∷ ks) val = do
  (val', keys) ← with_index val k ks (parse_arr_key_index (last_key k ks))
  first_of_reversed val' (reverse keys)

unfoldable pub make_by_path : Text → Any → Outcome Fields
unfolding make_by_keys
make_by_path path val = make_by_keys (split_char b'.' path) val
