-- ===== src/Maputil/GetSafety.antt =====
-- When a lookup by a path panics.
use goutil.Prelude.{
  ℕ, ◌≡◌, sym, ap, ◌∙◌, Bool, true, false, List, [], ◌∷◌, Option, none, some, if◌then◌else◌, ◌==◌,
  leb, ◌^◌, ◌-◌, Bool-cases, inl, inr, if_false,
}
use mathlib.Core.Path.{subst}
use goutil.Prelude.Int.{ℤ, pos, negsuc}
use goutil.Prelude.Outcome.{Outcome, done, panics, ◌>>=◌, IsDone, is_done, >>=-IsDone, IsDone-value}
use goutil.Text.{Text, split_char}
use goutil.Text.Laws.{text_eq_iff}
use goutil.Strutil.Cut.{is_empty}
use goutil.Conv.{ConvError, Conv, syntax_error, range_error}
use goutil.Conv.Parse.{parse_uint, with_sign, parse_int}
use goutil.Maputil.Values.{
  Any, null, text, other, smap, amap, imap, maps, slice, Fields, Maps, no_maps, map_item, Items,
  nil, cons, lookup, item_at, map_at, is_map,
}
use goutil.Maputil.Get.{
  Getter, wildcard, is_wildcard, no_keys, only_wildcard, next_key, found_or_none, collect_maps,
  collect_items, more_items, some_items, found_items, at_index, found_top, whole_or, by_parts,
  get_key, get_keys, get_by_path_keys, get_by_path,
}

-- No key begins with a minus sign.
abbrev pub NoMinus : Text → Type 0
NoMinus [] = Unit
NoMinus (c ∷ s) = (c == b'-') ≡ false

abbrev pub NoneNegative : List Text → Type 0
NoneNegative [] = Unit
NoneNegative (k ∷ ks) = NoMinus k × NoneNegative ks

abbrev IsPositive : ℤ → Type 0
IsPositive (pos n) = Unit
IsPositive (negsuc n) = ⊥

IsPositive-if :
    (b : Bool) (x y : Conv ℤ) → IsPositive x.0 → IsPositive y.0 → IsPositive (if b then x else y).0
IsPositive-if true x y h k = h
IsPositive-if false x y h k = k

held-IsPositive :
    (n : ℕ)
    → (let r : Conv ℤ =
          if leb (2 ^ 63) n then (pos (2 ^ 63 - 1), some range_error) else (pos n, none) in
        IsPositive r.0)
held-IsPositive n =
    IsPositive-if (leb (2 ^ 63) n) (pos (2 ^ 63 - 1), some range_error) (pos n, none) tt tt

with_sign-IsPositive : (n : ℕ) (e : Option ConvError) → IsPositive (with_sign false (n, e)).0
unfolding with_sign
with_sign-IsPositive n none = held-IsPositive n
with_sign-IsPositive n (some syntax_error) = tt
with_sign-IsPositive n (some e) = held-IsPositive n

parse_int-IsPositive : (k : Text) → NoMinus k → IsPositive (parse_int k).0
unfolding parse_int
parse_int-IsPositive [] h = tt
parse_int-IsPositive (c ∷ s) h =
    let plus = with_sign-IsPositive (parse_uint s).0 (parse_uint s).1 in
    let none_ = with_sign-IsPositive (parse_uint (c ∷ s)).0 (parse_uint (c ∷ s)).1 in
    subst (λ (r : Conv ℤ). IsPositive r.0) (sym (if_false _ _ h))
      (IsPositive-if (c == b'+') (with_sign false (parse_uint s))
        (with_sign false (parse_uint (c ∷ s))) plus none_)

-- A lookup that gives a result for every value.
abbrev Total : Getter → Type 0
Total get = (v : Any) → IsDone (get v)

IsDone-if :
    {A : Type 0} (b : Bool) (x y : Outcome A) → IsDone x → IsDone y → IsDone (if b then x else y)
IsDone-if true x y h k = h
IsDone-if false x y h k = k

next_key-Total : (get : Getter) (ks : List Text) → Total get → Total (next_key get ks)
next_key-Total get ks h v = IsDone-if (only_wildcard ks) (done (some v)) (get v) is_done (h v)

found_or_none-IsDone :
    (get : Getter) (ks : List Text) (r : Option Any) → Total get → IsDone (found_or_none get ks r)
found_or_none-IsDone get ks none h = is_done
found_or_none-IsDone get ks (some v) h = next_key-Total get ks h v

collect_maps-IsDone : (get : Getter) (ms : Maps) → Total get → IsDone (collect_maps get ms)
unfolding collect_maps
collect_maps-IsDone get no_maps h = is_done
collect_maps-IsDone get (map_item fs ms) h =
    >>=-IsDone (get (amap fs)) _ (h (amap fs))
      λ r. >>=-IsDone (collect_maps get ms) _ (collect_maps-IsDone get ms h) λ vs. is_done

collect_items-IsDone : (get : Getter) (vs : Items) → Total get → IsDone (collect_items get vs)
unfolding collect_items
collect_items-IsDone get nil h = is_done
collect_items-IsDone get (cons v vs) h =
    IsDone-if (is_map v) (get v >>= more_items (collect_items get vs)) (done none)
      (>>=-IsDone (get v) _ (h v)
        λ r. >>=-IsDone (collect_items get vs) _ (collect_items-IsDone get vs h) λ found. is_done)
      is_done

found_top-IsDone : (get : Getter) (r : Option Any) → Total get → IsDone (found_top get r)
found_top-IsDone get none h = is_done
found_top-IsDone get (some v) h = h v

at_index-IsDone :
    (at : ℕ → Option Any) (get : Getter) (z : ℤ) (e : Option ConvError)
    → Total get
    → IsPositive z
    → IsDone (at_index at get (z, e))
at_index-IsDone at get z (some e) h k = is_done
at_index-IsDone at get (pos i) none h k = found_top-IsDone get (at i) h
at_index-IsDone at get (negsuc i) none h k = absurd k

get_key-IsDone :
    (get : Getter) (ks : List Text) (k : Text) (v : Any)
    → Total get
    → NoMinus k
    → IsDone (get_key get ks k v)
unfolding get_key
get_key-IsDone get ks k null h hk = is_done
get_key-IsDone get ks k (text t) h hk = is_done
get_key-IsDone get ks k (other n) h hk = is_done
get_key-IsDone get ks k (smap m) h hk = found_or_none-IsDone get ks _ h
get_key-IsDone get ks k (amap fs) h hk = found_or_none-IsDone get ks (lookup k fs) h
get_key-IsDone get ks k (imap fs) h hk = found_or_none-IsDone get ks (lookup k fs) h
get_key-IsDone get ks k (maps ms) h hk =
    IsDone-if (is_wildcard k) _ (at_index (map_at ms) (next_key get ks) (parse_int k))
      (IsDone-if (no_keys ks) (done (some (maps ms))) _ is_done (
        >>=-IsDone (collect_maps get ms) (λ vs. done (some_items vs)) (collect_maps-IsDone get ms h)
          λ vs. is_done))
      (at_index-IsDone (map_at ms) (next_key get ks) (parse_int k).0 (parse_int k).1
        (next_key-Total get ks h) (parse_int-IsPositive k hk))
get_key-IsDone get ks k (slice vs) h hk =
    IsDone-if (is_wildcard k) _ (at_index (item_at vs) get (parse_int k))
      (IsDone-if (no_keys ks) (done (some (slice vs))) _ is_done (
        >>=-IsDone (collect_items get vs) (λ found. done (found_items found))
          (collect_items-IsDone get vs h) λ found. is_done))
      (at_index-IsDone (item_at vs) get (parse_int k).0 (parse_int k).1 h
        (parse_int-IsPositive k hk))

get_keys-Total : (ks : List Text) → NoneNegative ks → Total (get_keys ks)
unfolding get_keys
get_keys-Total [] h v = is_done
get_keys-Total (k ∷ ks) (hk, h) v = get_key-IsDone (get_keys ks) ks k v (get_keys-Total ks h) hk

get_by_path_keys-IsDone :
    (mp : Fields) (ks : List Text) → NoneNegative ks → IsDone (get_by_path_keys mp ks)
unfolding get_by_path_keys
get_by_path_keys-IsDone mp [] h = is_done
get_by_path_keys-IsDone mp (k ∷ ks) (hk, h) =
    found_top-IsDone (get_keys ks) (lookup k mp) (get_keys-Total ks h)

whole_or-IsDone :
    (rest : Outcome (Option Any)) (r : Option Any) → IsDone rest → IsDone (whole_or rest r)
whole_or-IsDone rest none h = h
whole_or-IsDone rest (some v) h = is_done

get_by_path-IsDone :
    (path : Text) (mp : Fields) → NoneNegative (split_char b'.' path) → IsDone (get_by_path path mp)
unfolding get_by_path
get_by_path-IsDone path mp h =
    let parts = get_by_path_keys mp (split_char b'.' path) in
    IsDone-if (is_empty path) (done (some (amap mp))) (whole_or (by_parts path mp) (lookup path mp))
      is_done
      (whole_or-IsDone (by_parts path mp) (lookup path mp) (
        IsDone-if _ (done none) parts is_done
          (get_by_path_keys-IsDone mp (split_char b'.' path) h)))

-- `GetByPath` returns for every map, with or without a value, if no key of the path begins with a
-- minus sign; it does not panic there, whatever wildcards and indexes the path has.
pub get_by_path-done :
    (path : Text) (mp : Fields)
    → NoneNegative (split_char b'.' path)
    → (r : Option Any) × (get_by_path path mp ≡ done r)
get_by_path-done path mp h = IsDone-value (get_by_path path mp) (get_by_path-IsDone path mp h)

-- A number is not the wildcard.
pub parse_int-named : (k : Text) (z : ℤ) → parse_int k ≡ (z, none) → is_wildcard k ≡ false
unfolding parse_int
parse_int-named k z e = elim (Bool-cases (is_wildcard k)) [
  | inl w ↦
      let e' : parse_int wildcard ≡ (z, none) =
        ap parse_int (sym ((text_eq_iff k wildcard).0 w)) ∙ e in
      cc e'
  | inr named ↦ named
]

pub get_keys-panics :
    (k : Text) (ks : List Text) (n : ℕ)
    → parse_int k ≡ (negsuc n, none)
    → ((vs : Items) → get_keys (k ∷ ks) (slice vs) ≡ panics)
      × ((ms : Maps) → get_keys (k ∷ ks) (maps ms) ≡ panics)
unfolding get_keys get_key
get_keys-panics k ks n e =
    let named = parse_int-named k (negsuc n) e in
    (
      λ vs. if_false _ _ named ∙ ap (at_index (item_at vs) (get_keys ks)) e,
      λ ms. if_false _ _ named ∙ ap (at_index (map_at ms) (next_key (get_keys ks) ks)) e,
    )
