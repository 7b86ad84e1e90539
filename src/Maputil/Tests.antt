-- ===== src/Maputil/Tests.antt =====
-- The theorems on maps at small maps.
use goutil.Prelude.{◌≡◌, refl, arith, [], ◌∷◌, Option, some}
use goutil.Prelude.Outcome.{done, panics}
use goutil.Text.{codes, text_eq, split_char, index_char}
use goutil.Conv.Parse.{parse_int}
use goutil.Maputil.Values.{
  Any, null, text, other, amap, slice, Fields, end, field, nil, cons, lookup,
}
use goutil.Maputil.Get.{get_by_path_keys, get_by_path}
use goutil.Maputil.Make.{make_by_keys}
use goutil.Maputil.Merge.{simple_merge}
use goutil.Maputil.MapData.{data_get_by_path}
use goutil.Maputil.GetSafety.{NoneNegative, get_by_path-done}
use goutil.Maputil.MakePanics.{get_by_path_keys-panics}
use goutil.Conv.Print.{format_int}
use goutil.Prelude.Int.{negsuc}
use goutil.Maputil.Brackets.{bracketed}
use goutil.Maputil.MakeGet.{get_by_path_keys-make_by_keys}
use goutil.Maputil.MergeLookup.{DistinctKeys}
use goutil.Maputil.MergeNested.{DistinctDeep, IsMerge, simple_merge-IsMerge}
use goutil.Maputil.DataPaths.{data_get_by_path-get_by_path}

-- `{"top": [{"a": "x"}, {"a": "y"}]}`
abbrev tree : Fields
tree =
    field (codes "top")
      (slice (
        cons (amap (field (codes "a") (text (codes "x")) end))
          (cons (amap (field (codes "a") (text (codes "y")) end)) nil)))
      end

all_of_tree :
    get_by_path (codes "top.*.a") tree
    ≡ done (some (slice (cons (text (codes "x")) (cons (text (codes "y")) nil))))
unfolding get_by_path text_eq split_char index_char
all_of_tree = refl

one_of_tree : get_by_path (codes "top.1.a") tree ≡ done (some (text (codes "y")))
unfolding get_by_path text_eq parse_int split_char index_char
one_of_tree = refl

parts-NoneNegative : NoneNegative (split_char b'.' (codes "top.1.a"))
unfolding split_char
parts-NoneNegative = (refl, (refl, (refl, tt)))

get_by_path-done_example : (r : Option Any) × (get_by_path (codes "top.1.a") tree ≡ done r)
get_by_path-done_example = get_by_path-done (codes "top.1.a") tree parts-NoneNegative

get_by_path_keys-panics_example :
    (mp : Fields) × (make_by_keys
        (codes "site" ∷ bracketed (codes "tags") (codes "2") ∷ [])
        (other 7)
      ≡ done mp)
    × (get_by_path_keys mp (codes "site" ∷ codes "tags" ∷ format_int (negsuc 0) ∷ []) ≡ panics)
get_by_path_keys-panics_example =
    get_by_path_keys-panics (codes "site" ∷ []) b't' (codes "ags") b'2' [] 2 (other 7) 0 []
      (unfold text_eq in (refl, (refl, tt))) (refl, (refl, (refl, (refl, tt))))
      (unfold parse_int in refl) (omega arith) (λ e. cc e) (omega arith) tt

get_by_path_keys-make_by_keys_example :
    ((mp : Fields) × (make_by_keys (codes "site" ∷ codes "tags" ∷ []) (other 7) ≡ done mp)
      × (get_by_path_keys mp (codes "site" ∷ codes "tags" ∷ []) ≡ done (some (other 7))))
    × ((mp : Fields) × (make_by_keys
            (codes "site" ∷ bracketed (codes "tags") (codes "2") ∷ [])
            (other 7)
          ≡ done mp)
        × (get_by_path_keys mp (codes "site" ∷ codes "tags" ∷ codes "2" ∷ [])
            ≡ done (some (other 7))))
get_by_path_keys-make_by_keys_example =
    get_by_path_keys-make_by_keys (codes "site" ∷ []) b't' (codes "ags") b'2' [] 2 (other 7)
      (unfold text_eq in (refl, (refl, tt))) (refl, (refl, (refl, (refl, tt))))
      (unfold parse_int in refl) (omega arith) (λ e. cc e)

abbrev old_map : Fields
old_map = field (codes "a") (amap (field (codes "x") (other 1) end)) (field (codes "b") null end)

abbrev new_map : Fields
new_map = field (codes "a") (amap (field (codes "y") (other 2) end)) end

-- Each key of the maps stands once.
new_map-DistinctDeep : DistinctDeep new_map
unfolding lookup
new_map-DistinctDeep = (refl, (refl, tt, tt), tt)

old_map-DistinctKeys : DistinctKeys old_map
unfolding lookup text_eq
old_map-DistinctKeys = (refl, (refl, tt))

simple_merge-IsMerge_example :
    DistinctKeys (simple_merge new_map old_map)
    × IsMerge new_map old_map (simple_merge new_map old_map)
simple_merge-IsMerge_example =
    simple_merge-IsMerge new_map old_map new_map-DistinctDeep old_map-DistinctKeys

data_get_by_path-get_by_path_example :
    data_get_by_path (codes "top.0") tree ≡ get_by_path (codes "top.0") tree
data_get_by_path-get_by_path_example = data_get_by_path-get_by_path (codes "top.0") tree (λ e. cc e)
