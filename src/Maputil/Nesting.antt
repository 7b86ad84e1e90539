-- ===== src/Maputil/Nesting.antt =====
-- A value under names in names, and its lookup.
use mathlib.Core.List.{reverse, reverse-cons}
use goutil.Prelude.{◌≡◌, refl, ap, ◌∙◌, false, List, [], ◌∷◌, ◌++◌, some, if_true, if_false}
use goutil.Text.{Text}
use goutil.Text.Laws.{text_eq_iff}
use goutil.Maputil.Values.{Any, amap, Fields, end, field, lookup}
use goutil.Maputil.Get.{
  is_wildcard, only_wildcard, found_or_none, get_key, get_keys, get_by_path_keys, found_top,
}
use goutil.Maputil.Make.{wrap_keys}

abbrev pub nest : List Text → Any → Any
nest [] v = v
nest (k ∷ ks) v = amap (field k (nest ks v) end)

wrap_keys_concat :
    (mp : Fields) (ks : List Text) (k : Text)
    → wrap_keys mp (ks ++ k ∷ []) ≡ field k (amap (wrap_keys mp ks)) end
wrap_keys_concat mp [] k = refl
wrap_keys_concat mp (j ∷ ks) k = wrap_keys_concat (field j (amap mp) end) ks k

pub wrap_keys-nest :
    (mp : Fields) (ks : List Text) → amap (wrap_keys mp (reverse ks)) ≡ nest ks (amap mp)
wrap_keys-nest mp [] = refl
wrap_keys-nest mp (k ∷ ks) =
    ap (λ r. amap (wrap_keys mp r)) (reverse-cons k ks)
    ∙ ap amap (wrap_keys_concat mp (reverse ks) k)
    ∙ ap (λ v. amap (field k v end)) (wrap_keys-nest mp ks)

-- No name is the wildcard.
abbrev pub AllNamed : List Text → Type 0
AllNamed [] = Unit
AllNamed (k ∷ ks) = (is_wildcard k ≡ false) × AllNamed ks

pub AllNamed-append : (ks js : List Text) → AllNamed ks → AllNamed js → AllNamed (ks ++ js)
AllNamed-append [] js h k = k
AllNamed-append (k ∷ ks) js (hk, h) k' = (hk, AllNamed-append ks js h k')

AllNamed-only : (ks : List Text) → AllNamed ks → only_wildcard ks ≡ false
AllNamed-only [] h = refl
AllNamed-only (k ∷ []) (hk, h) = hk
AllNamed-only (k ∷ j ∷ ks) h = refl

lookup-field : (k : Text) (v : Any) (fs : Fields) → lookup k (field k v fs) ≡ some v
unfolding lookup
lookup-field k v fs = if_true _ _ ((text_eq_iff k k).1 refl)

-- A lookup goes through the names.
pub get_keys-nest :
    (ks rest : List Text) (v : Any)
    → AllNamed ks
    → AllNamed rest
    → get_keys (ks ++ rest) (nest ks v) ≡ get_keys rest v
unfolding get_keys get_key
get_keys-nest [] rest v h hr = refl
get_keys-nest (k ∷ ks) rest v (hk, h) hr =
    ap (found_or_none (get_keys (ks ++ rest)) (ks ++ rest)) (lookup-field k (nest ks v) end)
    ∙ if_false _ _ (AllNamed-only (ks ++ rest) (AllNamed-append ks rest h hr))
    ∙ get_keys-nest ks rest v h hr

-- The lookup from a map and that from its value are the same, where the second key is a name.
pub get_by_path_keys-nest :
    (k : Text) (ks rest : List Text) (v : Any)
    → AllNamed (k ∷ ks)
    → AllNamed rest
    → get_by_path_keys (field k (nest ks v) end) (k ∷ (ks ++ rest)) ≡ get_keys rest v
unfolding get_by_path_keys
get_by_path_keys-nest k ks rest v (hk, h) hr =
    ap (found_top (get_keys (ks ++ rest))) (lookup-field k (nest ks v) end)
    ∙ get_keys-nest ks rest v h hr
