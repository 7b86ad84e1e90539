-- ===== src/Maputil/MergeNested.antt =====
-- What a merged map has at every depth.
use goutil.Prelude.{
  ◌≡◌, refl, sym, ◌∙◌, Bool, true, false, Option, none, some, Bool-cases, inl, inr, ◌⊎◌, if_true,
  if_false,
}
use mathlib.Core.Path.{subst}
use goutil.Text.{Text, text_eq}
use goutil.Maputil.Values.{
  Any, null, text, other, smap, amap, imap, maps, slice, Fields, end, field, lookup,
}
use goutil.Maputil.Merge.{simple_merge, merge_value}
use goutil.Maputil.MergeLookup.{
  DistinctKeys, merged, lookup-simple_merge, simple_merge-DistinctKeys,
}

-- Both values are of type `map[string]any`.
abbrev pub both_maps : Any → Option Any → Bool
both_maps (amap s) (some (amap d)) = true
both_maps v old = false

-- The third map is the merge of the first over the second, said of each key: a key that the first
-- map does not have is as in the second; two maps under one key are merged again, and else the
-- value of the first map stands.
mutual
  pub data IsMerge : Fields → Fields → Fields → Type 0 where
    merges :
        {s d m : Fields}
        → ((j : Text) → IsMergedValue (lookup j s) (lookup j d) (lookup j m))
        → IsMerge s d m

  pub data IsMergedValue : Option Any → Option Any → Option Any → Type 0 where
    old_value : {o : Option Any} → IsMergedValue none o o
    new_value :
        {v : Any} {o : Option Any} → both_maps v o ≡ false → IsMergedValue (some v) o (some v)
    nested :
        {s d m : Fields}
        → IsMerge s d m
        → IsMergedValue (some (amap s)) (some (amap d)) (some (amap m))

-- Each key stands once, in the map and in the maps of type `map[string]any` inside it.
abbrev mutual
  pub DistinctInside : Any → Type 0
  DistinctInside (amap fs) = DistinctDeep fs
  DistinctInside v = Unit

  pub DistinctDeep : Fields → Type 0
  DistinctDeep end = Unit
  DistinctDeep (field k v fs) = (lookup k fs ≡ none) × DistinctInside v × DistinctDeep fs

DistinctDeep-DistinctKeys : (fs : Fields) → DistinctDeep fs → DistinctKeys fs
DistinctDeep-DistinctKeys end h = tt
DistinctDeep-DistinctKeys (field k v fs) (h, inside, deep) = (h, DistinctDeep-DistinctKeys fs deep)

-- Every merge of a nested map of the first map is one.
abbrev NestedMerge : Fields → Type 0
NestedMerge src =
    (j : Text) (s : Fields)
    → lookup j src ≡ some (amap s)
    → (d : Fields) → IsMerge s d (simple_merge s d)

IsMergedValue-merged :
    (o old : Option Any)
    → ((s : Fields) → o ≡ some (amap s) → (d : Fields) → IsMerge s d (simple_merge s d))
    → IsMergedValue o old (merged o old)
unfolding merge_value
IsMergedValue-merged none old h = old_value
IsMergedValue-merged (some (amap s)) (some (amap d)) h = nested (h s refl d)
IsMergedValue-merged (some (amap s)) none h = new_value refl
IsMergedValue-merged (some (amap s)) (some null) h = new_value refl
IsMergedValue-merged (some (amap s)) (some (text t)) h = new_value refl
IsMergedValue-merged (some (amap s)) (some (other n)) h = new_value refl
IsMergedValue-merged (some (amap s)) (some (smap m)) h = new_value refl
IsMergedValue-merged (some (amap s)) (some (imap m)) h = new_value refl
IsMergedValue-merged (some (amap s)) (some (maps m)) h = new_value refl
IsMergedValue-merged (some (amap s)) (some (slice m)) h = new_value refl
IsMergedValue-merged (some null) old h = new_value refl
IsMergedValue-merged (some (text t)) old h = new_value refl
IsMergedValue-merged (some (other n)) old h = new_value refl
IsMergedValue-merged (some (smap m)) old h = new_value refl
IsMergedValue-merged (some (imap m)) old h = new_value refl
IsMergedValue-merged (some (maps m)) old h = new_value refl
IsMergedValue-merged (some (slice m)) old h = new_value refl

IsMerge-simple_merge :
    (src dst : Fields) → DistinctKeys src → NestedMerge src → IsMerge src dst (simple_merge src dst)
IsMerge-simple_merge src dst h inside = merges λ j.
    subst (IsMergedValue (lookup j src) (lookup j dst)) (sym (lookup-simple_merge j src dst h))
      (IsMergedValue-merged (lookup j src) (lookup j dst) (inside j))

-- The value of a field is the map that is looked up.
value_at :
    (j k : Text) (v : Any) (fs : Fields) {s : Fields}
    → lookup j (field k v fs) ≡ some (amap s)
    → ((text_eq k j ≡ true) × (v ≡ amap s)) ⊎ (lookup j fs ≡ some (amap s))
unfolding lookup
value_at j k v fs e = elim (Bool-cases (text_eq k j)) [
  | inl same ↦ let h = sym (if_true _ _ same) ∙ e in inl (same, cc h)
  | inr apart ↦ inr (sym (if_false _ _ apart) ∙ e)
]

nothing_inside : (j : Text) {s : Fields} {A : Type 0} → lookup j end ≡ some (amap s) → A
unfolding lookup
nothing_inside j e = cc e

mutual
  NestedMerge-inside :
      (v : Any)
      → DistinctInside v
      → (s : Fields) → v ≡ amap s
      → (d : Fields) → IsMerge s d (simple_merge s d)
  NestedMerge-inside (amap fs) h s e d =
      let e' : fs ≡ s = cc e in
      subst (λ (x : Fields). IsMerge x d (simple_merge x d)) e'
        (IsMerge-simple_merge fs d (DistinctDeep-DistinctKeys fs h) (NestedMerge-deep fs h))
  NestedMerge-inside null h s e d = cc e
  NestedMerge-inside (text t) h s e d = cc e
  NestedMerge-inside (other n) h s e d = cc e
  NestedMerge-inside (smap m) h s e d = cc e
  NestedMerge-inside (imap m) h s e d = cc e
  NestedMerge-inside (maps m) h s e d = cc e
  NestedMerge-inside (slice m) h s e d = cc e

  NestedMerge-deep : (src : Fields) → DistinctDeep src → NestedMerge src
  NestedMerge-deep end h j s e d = nothing_inside j e
  NestedMerge-deep (field k v src) (hk, inside, deep) j s e d = elim (value_at j k v src e) [
    | inl (same, here) ↦ NestedMerge-inside v inside s here d
    | inr behind ↦ NestedMerge-deep src deep j s behind d
  ]

-- `SimpleMerge` of two maps, of which each has each key once and the first also the maps of type
-- `map[string]any` inside it, has each key once, and is their merge: a key that the first map does
-- not have is as in the second; where both have maps of type `map[string]any` under a key, what stands
-- there is the merge of these two in the same sense, at every depth; and else the value of the
-- first map stands.
pub simple_merge-IsMerge :
    (src dst : Fields)
    → DistinctDeep src
    → DistinctKeys dst
    → DistinctKeys (simple_merge src dst) × IsMerge src dst (simple_merge src dst)
simple_merge-IsMerge src dst hs hd =
    let keys = DistinctDeep-DistinctKeys src hs in
    (
      simple_merge-DistinctKeys src dst keys hd,
      IsMerge-simple_merge src dst keys (NestedMerge-deep src hs),
    )
