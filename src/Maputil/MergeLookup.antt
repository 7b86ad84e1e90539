-- ===== src/Maputil/MergeLookup.antt =====
-- What a merged map has under each key.
use goutil.Prelude.{
  ◌≡◌, refl, sym, ap, ◌∙◌, arith, true, false, Option, none, some, if◌then◌else◌, Bool-cases, inl,
  inr, if_false,
}
use goutil.Text.{Text, text_eq}
use goutil.Text.Laws.{text_eq_iff}
use goutil.Maputil.Values.{
  Any, null, text, other, smap, amap, imap, maps, slice, Fields, end, field, lookup, put,
}
use goutil.Maputil.Merge.{simple_merge, merge_loop, merge_value}

-- Each key stands once.
abbrev pub DistinctKeys : Fields → Type 0
DistinctKeys end = Unit
DistinctKeys (field k v fs) = (lookup k fs ≡ none) × DistinctKeys fs

text_eq_trans : (i k j : Text) → text_eq i k ≡ true → text_eq k j ≡ text_eq i j
text_eq_trans i k j h = ap (λ t. text_eq t j) (sym ((text_eq_iff i k).0 h))

lookup-put :
    (j k : Text) (v : Any) (fs : Fields)
    → lookup j (put k v fs) ≡ (if text_eq k j then some v else lookup j fs)
unfolding lookup put
lookup-put j k v end = refl
lookup-put j k v (field i w fs) =
    ground (arith, text_eq_iff i k, text_eq_iff i j, text_eq_iff k j, lookup-put j k v fs)

missing :
    (k : Text) (v : Any) (i : Text) (fs : Fields)
    → lookup i fs ≡ none
    → text_eq i k ≡ false
    → lookup i (put k v fs) ≡ none
missing k v i fs h e = elim (Bool-cases (text_eq k i)) [
  | inl e' ↦ cc (e, (text_eq_iff i k).1 (sym ((text_eq_iff k i).0 e')))
  | inr e' ↦ lookup-put i k v fs ∙ if_false _ _ e' ∙ h
]

put-DistinctKeys : (k : Text) (v : Any) (fs : Fields) → DistinctKeys fs → DistinctKeys (put k v fs)
unfolding put lookup
put-DistinctKeys k v end h = (refl, tt)
put-DistinctKeys k v (field i w fs) (hi, h) = elim (Bool-cases (text_eq i k)) [
  | inl e ↦ rw e (hi, h)
  | inr e ↦ rw e (missing k v i fs hi e, put-DistinctKeys k v fs h)
]

-- The value of a key that both maps may have.
abbrev pub merged : Option Any → Option Any → Option Any
merged none d = d
merged (some v) d = some (merge_value v d)

merge_value-none : (v : Any) → merge_value v none ≡ v
unfolding merge_value
merge_value-none (amap fs) = refl
merge_value-none null = refl
merge_value-none (text t) = refl
merge_value-none (other n) = refl
merge_value-none (smap m) = refl
merge_value-none (imap fs) = refl
merge_value-none (maps ms) = refl
merge_value-none (slice vs) = refl

merged-none : (o : Option Any) → o ≡ merged o none
merged-none none = refl
merged-none (some v) = ap some (sym (merge_value-none v))

lookup-merge_loop :
    (j : Text) (src dst : Fields)
    → DistinctKeys src
    → lookup j (merge_loop src dst) ≡ merged (lookup j src) (lookup j dst)
unfolding merge_loop lookup
lookup-merge_loop j end dst h = refl
lookup-merge_loop j (field k v src) dst (hk, h) =
    lookup-merge_loop j src (put k (merge_value v (lookup k dst)) dst) h
    ∙ ap (merged (lookup j src)) (lookup-put j k (merge_value v (lookup k dst)) dst)
    ∙ elim (Bool-cases (text_eq k j)) [
      | inl e ↦
          let p = (text_eq_iff k j).0 e in
          rw e (
            ap (λ o. merged o (some (merge_value v (lookup k dst))))
              (ap (λ t. lookup t src) (sym p) ∙ hk)
            ∙ ap (λ t. some (merge_value v (lookup t dst))) p)
      | inr e ↦ rw e refl
    ]

merge_loop-DistinctKeys : (src dst : Fields) → DistinctKeys dst → DistinctKeys (merge_loop src dst)
unfolding merge_loop
merge_loop-DistinctKeys end dst h = h
merge_loop-DistinctKeys (field k v src) dst h =
    merge_loop-DistinctKeys src (put k (merge_value v (lookup k dst)) dst)
      (put-DistinctKeys k (merge_value v (lookup k dst)) dst h)

pub lookup-simple_merge :
    (j : Text) (src dst : Fields)
    → DistinctKeys src
    → lookup j (simple_merge src dst) ≡ merged (lookup j src) (lookup j dst)
unfolding simple_merge
lookup-simple_merge j end dst h = unfold lookup in refl
lookup-simple_merge j (field k v src) end h = merged-none _
lookup-simple_merge j (field k v src) (field i w dst) h =
    lookup-merge_loop j (field k v src) (field i w dst) h

pub simple_merge-DistinctKeys :
    (src dst : Fields) → DistinctKeys src → DistinctKeys dst → DistinctKeys (simple_merge src dst)
unfolding simple_merge
simple_merge-DistinctKeys end dst hs hd = hd
simple_merge-DistinctKeys (field k v src) end hs hd = hs
simple_merge-DistinctKeys (field k v src) (field i w dst) hs hd =
    merge_loop-DistinctKeys (field k v src) (field i w dst) hd
