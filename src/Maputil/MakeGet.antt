-- ===== src/Maputil/MakeGet.antt =====
-- What `MakeByKeys` builds is found by `GetByPathKeys`.
use mathlib.Core.List.{reverse, reverse-append}
use goutil.Prelude.{
  ℕ, zero, suc, ◌≡◌, ◌≢◌, refl, sym, ap, ◌∙◌, true, false, List, [], ◌∷◌, ◌++◌, none, some,
  append-nil, if_false, ◌<◌, ◌^◌, ◌-◌, leb, arith,
}
use goutil.Prelude.Int.{pos}
use goutil.Prelude.Outcome.{Outcome, done, ◌>>=◌}
use goutil.Text.{Text}
use goutil.Text.Laws.{Every}
use goutil.Text.Splits.{differs}
use goutil.Conv.Parse.{parse_int}
use goutil.Maputil.Values.{
  Any, null, text, other, smap, amap, imap, maps, slice, Fields, end, field, Maps, Items, item_at,
  map_at,
}
use goutil.Maputil.Get.{
  get_key, get_keys, get_by_path_keys, is_wildcard, next_key, at_index, found_top,
}
use goutil.Maputil.Make.{
  zeros_before, empty_maps_before, filled, slice_with, wrap_keys, first_of_reversed, last_key,
  set_last, with_index, parse_arr_key_index, make_by_keys,
}
use goutil.Maputil.GetSafety.{parse_int-named}
use goutil.Maputil.Nesting.{nest, wrap_keys-nest, AllNamed, AllNamed-append, get_by_path_keys-nest}
use goutil.Maputil.Brackets.{bracketed, parse_arr_key_index-bracketed, parse_arr_key_index-plain}

last_key_concat : (k : Text) (ks : List Text) (l : Text) → last_key k (ks ++ l ∷ []) ≡ l
last_key_concat k [] l = refl
last_key_concat k (j ∷ ks) l = last_key_concat j ks l

set_last_concat :
    (new k : Text) (ks : List Text) (l : Text)
    → set_last new k (ks ++ l ∷ []) ≡ (k ∷ ks) ++ new ∷ []
set_last_concat new k [] l = refl
set_last_concat new k (j ∷ ks) l = ap (◌∷◌ k) (set_last_concat new j ks l)

abbrev pub built : Any → List Text → Text → Fields
built v ks l = wrap_keys (field l v end) (reverse ks)

first_of_reversed-built :
    (v : Any) (ks : List Text) (l : Text)
    → first_of_reversed v (reverse (ks ++ l ∷ [])) ≡ done (built v ks l)
first_of_reversed-built v ks l = ap (first_of_reversed v) (reverse-append ks (l ∷ []))

built-nest : (v : Any) (ks : List Text) (l : Text) → amap (built v ks l) ≡ nest (ks ++ l ∷ []) v
built-nest v ks l = wrap_keys-nest (field l v end) ks ∙ nest_concat ks
  where
    nest_concat : (js : List Text) → nest js (amap (field l v end)) ≡ nest (js ++ l ∷ []) v
    nest_concat [] = refl
    nest_concat (j ∷ js) = ap (λ w. amap (field j w end)) (nest_concat js)

-- The keys, the last of them apart, with the value to be stored.
abbrev make_with : Any × List Text → Outcome Fields
make_with (v, keys) = first_of_reversed v (reverse keys)

-- A plain last key.
make_by_keys-plain :
    (ks : List Text) (l : Text) (v : Any)
    → Every (differs b'[') l
    → make_by_keys (ks ++ l ∷ []) v ≡ done (built v ks l)
unfolding make_by_keys
make_by_keys-plain [] l v h =
    ap (λ r. with_index v l [] r >>= make_with) (parse_arr_key_index-plain l h)
make_by_keys-plain (k ∷ ks) l v h =
    ap (λ t. with_index v k (ks ++ l ∷ []) (parse_arr_key_index t) >>= make_with)
      (last_key_concat k ks l)
    ∙ ap (λ r. with_index v k (ks ++ l ∷ []) r >>= make_with) (parse_arr_key_index-plain l h)
    ∙ first_of_reversed-built v (k ∷ ks) l

-- A last key with an index.
pub make_by_keys-indexed :
    (ks : List Text) (l name : Text) (i : ℕ) (v w : Any)
    → parse_arr_key_index l ≡ (name, pos i, true)
    → slice_with v (pos i) ≡ done w
    → make_by_keys (ks ++ l ∷ []) v ≡ done (built w ks name)
unfolding make_by_keys
make_by_keys-indexed [] l name i v w e e' =
    ap (λ r. with_index v l [] r >>= make_with) e
    ∙ ap (λ r. r >>= (λ u. done (u, name ∷ [])) >>= make_with) e'
make_by_keys-indexed (k ∷ ks) l name i v w e e' =
    let keys = ks ++ l ∷ [] in
    ap (λ t. with_index v k keys (parse_arr_key_index t) >>= make_with) (last_key_concat k ks l)
    ∙ ap (λ r. with_index v k keys r >>= make_with) e
    ∙ ap (λ r. r >>= (λ u. done (u, set_last name k keys)) >>= make_with) e'
    ∙ ap (λ t. make_with (w, t)) (set_last_concat name k ks l)
    ∙ first_of_reversed-built w (k ∷ ks) name

item_at-zeros_before : (i : ℕ) (v : Any) → item_at (zeros_before i v) i ≡ some v
item_at-zeros_before zero v = refl
item_at-zeros_before (suc i) v = item_at-zeros_before i v

map_at-empty_maps_before :
    (i : ℕ) (fs : Fields) → map_at (empty_maps_before i fs) i ≡ some (amap fs)
map_at-empty_maps_before zero fs = refl
map_at-empty_maps_before (suc i) fs = map_at-empty_maps_before i fs

get_keys-slice :
    (vs : Items) (v : Any) (i : ℕ) (idx : Text)
    → parse_int idx ≡ (pos i, none)
    → item_at vs i ≡ some v
    → get_keys (idx ∷ []) (slice vs) ≡ done (some v)
unfolding get_keys get_key
get_keys-slice vs v i idx e h =
    if_false _ _ (parse_int-named idx (pos i) e)
    ∙ ap (at_index (item_at vs) (get_keys [])) e
    ∙ ap (found_top (get_keys [])) h

get_keys-maps :
    (ms : Maps) (v : Any) (i : ℕ) (idx : Text)
    → parse_int idx ≡ (pos i, none)
    → map_at ms i ≡ some v
    → get_keys (idx ∷ []) (maps ms) ≡ done (some v)
unfolding get_keys get_key
get_keys-maps ms v i idx e h =
    if_false _ _ (parse_int-named idx (pos i) e)
    ∙ ap (at_index (map_at ms) (next_key (get_keys []) [])) e
    ∙ ap (found_top (next_key (get_keys []) [])) h

-- The slice that is made for a value holds it at the index.
abbrev Holds : Any → ℕ → Text → Type 0
Holds v i idx =
    (w : Any) × (slice_with v (pos i) ≡ done w) × (get_keys (idx ∷ []) w ≡ done (some v))

-- An index below the largest int has its slice.
pub slice_with-filled : (v : Any) (i : ℕ) → i < 2 ^ 63 - 1 → slice_with v (pos i) ≡ filled v i
unfolding slice_with
slice_with-filled v i h = let fits : leb (2 ^ 63 - 1) i ≡ false = ground arith in if_false _ _ fits

module _ (i : ℕ) (idx : Text) (e : parse_int idx ≡ (pos i, none)) (lt : i < 2 ^ 63 - 1) where
  in_slice : (v : Any) → slice_with v (pos i) ≡ done (slice (zeros_before i v)) → Holds v i idx
  in_slice v made = (
    slice (zeros_before i v),
    made,
    get_keys-slice (zeros_before i v) v i idx e (item_at-zeros_before i v),
  )

  slice_with-Holds : (v : Any) → v ≢ null → Holds v i idx
  slice_with-Holds null ne = absurd (ne refl)
  slice_with-Holds (text t) ne = in_slice (text t) (slice_with-filled (text t) i lt)
  slice_with-Holds (other n) ne = in_slice (other n) (slice_with-filled (other n) i lt)
  slice_with-Holds (smap m) ne = in_slice (smap m) (slice_with-filled (smap m) i lt)
  slice_with-Holds (imap fs) ne = in_slice (imap fs) (slice_with-filled (imap fs) i lt)
  slice_with-Holds (maps ms) ne = in_slice (maps ms) (slice_with-filled (maps ms) i lt)
  slice_with-Holds (slice vs) ne = in_slice (slice vs) (slice_with-filled (slice vs) i lt)
  slice_with-Holds (amap fs) ne = (
    maps (empty_maps_before i fs),
    slice_with-filled (amap fs) i lt,
    get_keys-maps (empty_maps_before i fs) (amap fs) i idx e (map_at-empty_maps_before i fs),
  )

-- A lookup in what is built, behind its names.
abbrev fields_of : Any → Fields
fields_of (amap fs) = fs
fields_of v = end

pub AllNamed-split :
    (ks : List Text) (l : Text) → AllNamed (ks ++ l ∷ []) → AllNamed ks × (is_wildcard l ≡ false)
AllNamed-split [] l (h, _) = (tt, h)
AllNamed-split (k ∷ ks) l (hk, h) = let (hs, hl) = AllNamed-split ks l h in ((hk, hs), hl)

pub get_by_path_keys-built :
    (ks : List Text) (l : Text) (rest : List Text) (v : Any)
    → AllNamed ks
    → is_wildcard l ≡ false
    → AllNamed rest
    → get_by_path_keys (built v ks l) ((ks ++ l ∷ []) ++ rest) ≡ get_keys rest v
get_by_path_keys-built [] l rest v h hl hr = get_by_path_keys-nest l [] rest v (hl, tt) hr
get_by_path_keys-built (k ∷ ks) l rest v (hk, h) hl hr =
    ap (λ m. get_by_path_keys m (k ∷ ((ks ++ l ∷ []) ++ rest)))
      (ap fields_of (built-nest v (k ∷ ks) l))
    ∙ get_by_path_keys-nest k (ks ++ l ∷ []) rest v (hk, AllNamed-append ks (l ∷ []) h (hl, tt)) hr

-- `GetByPathKeys` finds what `MakeByKeys` built. At keys of which none is the wildcard and the last
-- has no opening bracket, the value is found at the same keys. Where an index in brackets stands
-- behind the last key, which is not empty, and is below the largest int, a value that is not nil is
-- found at the keys and then the index. None of the calls panics.
pub get_by_path_keys-make_by_keys :
    (ks : List Text) (c : ℕ) (s : Text) (d : ℕ) (idx : Text) (i : ℕ) (v : Any)
    → AllNamed (ks ++ (c ∷ s) ∷ [])
    → Every (differs b'[') (c ∷ s)
    → parse_int (d ∷ idx) ≡ (pos i, none)
    → i < 2 ^ 63 - 1
    → v ≢ null
    → ((mp : Fields) × (make_by_keys (ks ++ (c ∷ s) ∷ []) v ≡ done mp)
        × (get_by_path_keys mp (ks ++ (c ∷ s) ∷ []) ≡ done (some v)))
      × ((mp : Fields) × (make_by_keys (ks ++ bracketed (c ∷ s) (d ∷ idx) ∷ []) v ≡ done mp)
          × (get_by_path_keys mp ((ks ++ (c ∷ s) ∷ []) ++ (d ∷ idx) ∷ []) ≡ done (some v)))
get_by_path_keys-make_by_keys ks c s d idx i v h hs e lt ne =
    let (hk, hl) = AllNamed-split ks (c ∷ s) h in
    let (w, made, got) = slice_with-Holds i (d ∷ idx) e lt v ne in
    let bracket = parse_arr_key_index-bracketed c s d idx i hs e in
    let named = parse_int-named (d ∷ idx) (pos i) e in
    (
      (
        built v ks (c ∷ s),
        make_by_keys-plain ks (c ∷ s) v hs,
        ap (get_by_path_keys (built v ks (c ∷ s))) (sym (append-nil (ks ++ (c ∷ s) ∷ [])))
            ∙ get_by_path_keys-built ks (c ∷ s) [] v hk hl tt
            ∙ unfold get_keys in refl,
      ),
      (
        built w ks (c ∷ s),
        make_by_keys-indexed ks (bracketed (c ∷ s) (d ∷ idx)) (c ∷ s) i v w bracket made,
        get_by_path_keys-built ks (c ∷ s) ((d ∷ idx) ∷ []) w hk hl (named, tt) ∙ got,
      ),
    )
