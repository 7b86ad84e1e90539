-- ===== src/Maputil/MakePanics.antt =====
-- A negative index in what `MakeByKeys` builds.
use goutil.Prelude.{ℕ, ◌≡◌, ◌≢◌, refl, ◌∙◌, ◌<◌, ◌^◌, ◌-◌, List, [], ◌∷◌, ◌++◌, none}
use goutil.Prelude.Int.{pos, negsuc}
use goutil.Prelude.Outcome.{done, panics}
use goutil.Text.{Text}
use goutil.Text.Laws.{Every}
use goutil.Text.Splits.{differs}
use goutil.Conv.Parse.{parse_int}
use goutil.Conv.Print.{format_int}
use goutil.Conv.RoundTrip.{parse_int-negative}
use goutil.Maputil.Values.{Any, null, text, other, smap, amap, imap, maps, slice, Fields}
use goutil.Maputil.Get.{get_keys, get_by_path_keys}
use goutil.Maputil.Make.{slice_with, make_by_keys, zeros_before, empty_maps_before}
use goutil.Maputil.GetSafety.{parse_int-named, get_keys-panics}
use goutil.Maputil.Nesting.{AllNamed}
use goutil.Maputil.Brackets.{bracketed, parse_arr_key_index-bracketed}
use goutil.Maputil.MakeGet.{
  built, slice_with-filled, make_by_keys-indexed, get_by_path_keys-built, AllNamed-split,
}

-- The slice that is made panics at a negative number.
abbrev PanicsAt : Any → ℕ → Text → List Text → Type 0
PanicsAt v i k ks = (w : Any) × (slice_with v (pos i) ≡ done w) × (get_keys (k ∷ ks) w ≡ panics)

module _ (i n : ℕ) (k : Text) (ks : List Text) (lt : i < 2 ^ 63 - 1)
    (e : parse_int k ≡ (negsuc n, none)) where
  in_slice : (v : Any) → slice_with v (pos i) ≡ done (slice (zeros_before i v)) → PanicsAt v i k ks
  in_slice v made =
      (slice (zeros_before i v), made, (get_keys-panics k ks n e).0 (zeros_before i v))

  slice_with-panics : (v : Any) → v ≢ null → PanicsAt v i k ks
  slice_with-panics null ne = absurd (ne refl)
  slice_with-panics (text t) ne = in_slice (text t) (slice_with-filled (text t) i lt)
  slice_with-panics (other m) ne = in_slice (other m) (slice_with-filled (other m) i lt)
  slice_with-panics (smap m) ne = in_slice (smap m) (slice_with-filled (smap m) i lt)
  slice_with-panics (imap fs) ne = in_slice (imap fs) (slice_with-filled (imap fs) i lt)
  slice_with-panics (maps ms) ne = in_slice (maps ms) (slice_with-filled (maps ms) i lt)
  slice_with-panics (slice vs) ne = in_slice (slice vs) (slice_with-filled (slice vs) i lt)
  slice_with-panics (amap fs) ne = (
    maps (empty_maps_before i fs),
    slice_with-filled (amap fs) i lt,
    (get_keys-panics k ks n e).1 (empty_maps_before i fs),
  )

-- A lookup panics at a negative number, as it is printed, behind the keys of a slice: in the map that
-- `MakeByKeys` builds of keys, of which none is the wildcard, with an index in brackets behind the
-- last one, below the largest int, and a value that is not nil. None of the keys that follow the
-- number is the wildcard.
pub get_by_path_keys-panics :
    (ks : List Text) (c : ℕ) (s : Text) (d : ℕ) (idx : Text) (i : ℕ) (v : Any) (n : ℕ)
    (more : List Text)
    → AllNamed (ks ++ (c ∷ s) ∷ [])
    → Every (differs b'[') (c ∷ s)
    → parse_int (d ∷ idx) ≡ (pos i, none)
    → i < 2 ^ 63 - 1
    → v ≢ null
    → n < 2 ^ 63
    → AllNamed more
    → (mp : Fields) × (make_by_keys (ks ++ bracketed (c ∷ s) (d ∷ idx) ∷ []) v ≡ done mp)
      × (get_by_path_keys mp ((ks ++ (c ∷ s) ∷ []) ++ format_int (negsuc n) ∷ more) ≡ panics)
get_by_path_keys-panics ks c s d idx i v n more h hs e lt ne hn hm =
    let (hk, hl) = AllNamed-split ks (c ∷ s) h in
    let read = parse_int-negative n hn in
    let (w, made, panic) = slice_with-panics i n (format_int (negsuc n)) more lt read v ne in
    let bracket = parse_arr_key_index-bracketed c s d idx i hs e in
    let named = parse_int-named (format_int (negsuc n)) (negsuc n) read in
    (
      built w ks (c ∷ s),
      make_by_keys-indexed ks (bracketed (c ∷ s) (d ∷ idx)) (c ∷ s) i v w bracket made,
      get_by_path_keys-built ks (c ∷ s) (format_int (negsuc n) ∷ more) w hk hl (named, hm) ∙ panic,
    )
