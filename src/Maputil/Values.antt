-- ===== src/Maputil/Values.antt =====
-- The dynamic values that the type switches of maputil tell apart. A map is the list of its entries,
-- each key once; the order has no meaning.
use goutil.Prelude.{
  ℕ, zero, suc, Bool, true, false, List, [], ◌∷◌, Option, none, some, if◌then◌else◌,
}
use goutil.Text.{Text, text_eq}

-- `map[string]string`
abbrev pub StringMap : Type 0
StringMap = List (Text × Text)

-- `text` is a string and `other` a value that is no string, map or slice, `amap` a
-- `map[string]any`, `imap` a `map[any]any` with its entries under strings, `maps` a
-- `[]map[string]any` and `slice` a slice of another type.
mutual
  pub data Any : Type 0 where
    null : Any
    text : Text → Any
    other : ℕ → Any
    smap : StringMap → Any
    amap : Fields → Any
    imap : Fields → Any
    maps : Maps → Any
    slice : Items → Any

  pub data Fields : Type 0 where
    end : Fields
    field : Text → Any → Fields → Fields

  pub data Maps : Type 0 where
    no_maps : Maps
    map_item : Fields → Maps → Maps

  pub data Items : Type 0 where
    nil : Items
    cons : Any → Items → Items

-- `mp[k]` with its flag.
unfoldable pub lookup : Text → Fields → Option Any
lookup k end = none
lookup k (field j v fs) = let rest = lookup k fs in if text_eq j k then some v else rest

-- `mp[k] = v`
unfoldable pub put : Text → Any → Fields → Fields
put k v end = field k v end
put k v (field j w fs) =
    let rest = put k v fs in if text_eq j k then field j v fs else field j w rest

unfoldable pub lookup_string : Text → StringMap → Option Text
lookup_string k [] = none
lookup_string k ((j, v) ∷ m) = let rest = lookup_string k m in if text_eq j k then some v else rest

unfoldable pub put_string : Text → Text → StringMap → StringMap
put_string k v [] = (k, v) ∷ []
put_string k v ((j, w) ∷ m) =
    let rest = put_string k v m in if text_eq j k then (j, v) ∷ m else (j, w) ∷ rest

abbrev pub no_fields : Fields → Bool
no_fields end = true
no_fields (field k v fs) = false

abbrev pub no_items : Items → Bool
no_items nil = true
no_items (cons v vs) = false

-- The element at an index, where there is one.
abbrev pub item_at : Items → ℕ → Option Any
item_at nil i = none
item_at (cons v vs) zero = some v
item_at (cons v vs) (suc i) = item_at vs i

abbrev pub map_at : Maps → ℕ → Option Any
map_at no_maps i = none
map_at (map_item fs ms) zero = some (amap fs)
map_at (map_item fs ms) (suc i) = map_at ms i

abbrev pub is_map : Any → Bool
is_map (smap m) = true
is_map (amap fs) = true
is_map (imap fs) = true
is_map _ = false
