-- ===== src/Maputil/Get.antt =====
-- maputil/get.go: the value at a path of keys. An index that is out of range at its lower end panics.
use goutil.Prelude.{
  ℕ, Bool, true, false, ◌&&◌, ◌||◌, List, [], ◌∷◌, Option, none, some, if◌then◌else◌,
}
use goutil.Prelude.Int.{ℤ, pos, negsuc, ltb_ℤ}
use goutil.Prelude.Outcome.{Outcome, done, panics, ◌>>=◌}
use goutil.Text.{Text, codes, text_eq, index_char, split_char}
use goutil.Strutil.Cut.{is_empty}
use goutil.Conv.{ConvError}
use goutil.Conv.Parse.{parse_int}
use goutil.Maputil.Values.{
  Any, null, text, other, smap, amap, imap, maps, slice, Fields, Maps, no_maps, map_item, Items,
  nil, cons, lookup, lookup_string, no_fields, no_items, item_at, map_at, is_map,
}

abbrev pub wildcard : Text
wildcard = codes "*"

abbrev pub is_wildcard : Text → Bool
is_wildcard k = text_eq k wildcard

abbrev pub no_keys : List Text → Bool
no_keys [] = true
no_keys (k ∷ ks) = false

-- The rest of the keys is one wildcard.
abbrev pub only_wildcard : List Text → Bool
only_wildcard (k ∷ []) = is_wildcard k
only_wildcard _ = false

-- The lookup of the rest of the keys in a value.
abbrev pub Getter : Type 0
Getter = Any → Outcome (Option Any)

-- The end of a round: a wildcard as last key is the value itself.
abbrev pub next_key : Getter → List Text → Any → Outcome (Option Any)
next_key get ks item = if only_wildcard ks then done (some item) else get item

abbrev pub found_or_none : Getter → List Text → Option Any → Outcome (Option Any)
found_or_none get ks none = done none
found_or_none get ks (some v) = next_key get ks v

abbrev pub add_found : Option Any → Items → Items
add_found none vs = vs
add_found (some v) vs = cons v vs

-- The loop over a `[]map[string]any`, which keeps what is found.
unfoldable pub collect_maps : Getter → Maps → Outcome Items
collect_maps get no_maps = done nil
collect_maps get (map_item fs ms) = do
  r ← get (amap fs)
  vs ← collect_maps get ms
  done (add_found r vs)

abbrev pub more_items : Outcome (Option Items) → Option Any → Outcome (Option Items)
more_items rest r =
    rest >>= (λ found. done (elim found [ none ↦ none | some vs ↦ some (add_found r vs) ]))

-- The loop over another slice; an element that is no map ends it with nothing.
unfoldable pub collect_items : Getter → Items → Outcome (Option Items)
collect_items get nil = done (some nil)
collect_items get (cons v vs) =
    let rest = collect_items get vs in if is_map v then get v >>= more_items rest else done none

abbrev pub some_items : Items → Option Any
some_items vs = if no_items vs then none else some (slice vs)

abbrev pub found_items : Option Items → Option Any
found_items none = none
found_items (some vs) = some_items vs

-- The lookup goes on in an item, where there is one.
abbrev pub found_top : Getter → Option Any → Outcome (Option Any)
found_top get none = done none
found_top get (some item) = get item

-- `strconv.Atoi` and the test of the upper end; then the element.
abbrev pub at_index : (ℕ → Option Any) → Getter → ℤ × Option ConvError → Outcome (Option Any)
at_index at get (z, some e) = done none
at_index at get (pos i, none) = found_top get (at i)
at_index at get (negsuc i, none) = panics

-- One key of the loop in `getByPathKeys`; `ks` are the keys behind it.
unfoldable pub get_key : Getter → List Text → Text → Any → Outcome (Option Any)
unfolding lookup lookup_string collect_maps collect_items
get_key get ks k (smap m) =
    found_or_none get ks (elim (lookup_string k m) [ none ↦ none | some t ↦ some (text t) ])
get_key get ks k (amap fs) = found_or_none get ks (lookup k fs)
get_key get ks k (imap fs) = found_or_none get ks (lookup k fs)
get_key get ks k (maps ms) =
    if is_wildcard k
    then if no_keys ks
      then done (some (maps ms))
      else collect_maps get ms >>= (λ vs. done (some_items vs))
    else at_index (map_at ms) (next_key get ks) (parse_int k)
get_key get ks k (slice vs) =
    if is_wildcard k
    then if no_keys ks
      then done (some (slice vs))
      else collect_items get vs >>= (λ found. done (found_items found))
    else at_index (item_at vs) get (parse_int k)
get_key get ks k null = done (if is_wildcard k && no_keys ks then some null else none)
get_key get ks k (text t) = done (if is_wildcard k && no_keys ks then some (text t) else none)
get_key get ks k (other n) = done (if is_wildcard k && no_keys ks then some (other n) else none)

-- `getByPathKeys`
unfoldable pub get_keys : List Text → Any → Outcome (Option Any)
unfolding get_key
get_keys [] item = done (some item)
get_keys (k ∷ ks) item = get_key (get_keys ks) ks k item

unfoldable pub get_by_path_keys : Fields → List Text → Outcome (Option Any)
unfolding get_keys lookup
get_by_path_keys mp [] = done (some (amap mp))
get_by_path_keys mp (k ∷ ks) = found_top (get_keys ks) (lookup k mp)

-- The value under the whole path, where there is one.
abbrev pub whole_or : Outcome (Option Any) → Option Any → Outcome (Option Any)
whole_or rest (some v) = done (some v)
whole_or rest none = rest

-- Without a dot behind the first character there is no further key.
abbrev pub by_parts : Text → Fields → Outcome (Option Any)
by_parts path mp =
    if no_fields mp || ltb_ℤ (index_char path b'.') (pos 1)
    then done none
    else get_by_path_keys mp (split_char b'.' path)

unfoldable pub get_by_path : Text → Fields → Outcome (Option Any)
unfolding get_by_path_keys lookup
get_by_path path mp =
    if is_empty path then done (some (amap mp)) else whole_or (by_parts path mp) (lookup path mp)

unfoldable pub get_from_any : Text → Any → Outcome (Option Any)
unfolding get_keys
get_from_any path null = done none
get_from_any path v = if is_empty path then done (some v) else get_keys (split_char b'.' path) v

-- `DeepGet` and `QuietGet`
unfoldable pub deep_get : Fields → Text → Outcome Any
unfolding get_by_path
deep_get mp path = do r ← get_by_path path mp; done (elim r [ none ↦ null | some v ↦ v ])
