-- ===== src/Maputil/DataPaths.antt =====
-- The two lookups by path agree.
use goutil.Prelude.{
  ℕ, ◌+◌, ◌≡◌, ◌≢◌, refl, sym, ap, ◌∙◌, arith, Bool, true, false, ◌||◌, [], ◌∷◌, Option, none, some,
  Bool-cases, inl, inr, if_true, if_false,
}
use goutil.Prelude.Int.{pos, negsuc, ltb_ℤ}
use goutil.Prelude.Outcome.{Outcome, done}
use goutil.Text.{Text, index_char, index_char_from, contains_char}
use goutil.Maputil.Values.{Any, Fields, lookup, no_fields}
use goutil.Maputil.Get.{get_by_path, whole_or, by_parts}
use goutil.Maputil.MapData.{data_get_by_path}

index_char_from-none :
    (i b : ℕ) (s : Text) → contains_char s b ≡ false → index_char_from i b s ≡ negsuc 0
unfolding index_char_from contains_char
index_char_from-none i b [] h = refl
index_char_from-none i b (c ∷ s) h = ground (arith, index_char_from-none (i + 1) b s)

or_true : (b : Bool) → (b || true) ≡ true
or_true true = refl
or_true false = refl

whole_or_twice :
    (rest : Outcome (Option Any)) (r : Option Any) → whole_or (whole_or rest r) r ≡ whole_or rest r
whole_or_twice rest none = refl
whole_or_twice rest (some v) = refl

-- A path without a dot has no parts.
by_parts-whole :
    (path : Text) (d : Fields) → contains_char path b'.' ≡ false → by_parts path d ≡ done none
unfolding index_char
by_parts-whole path d e = if_true _ _ (
    ap (λ z. no_fields d || ltb_ℤ z (pos 1)) (index_char_from-none 0 b'.' path e)
    ∙ or_true (no_fields d))

-- `Data.GetByPath` is `GetByPath` of its map at every path that is not empty.
pub data_get_by_path-get_by_path :
    (path : Text) (d : Fields) → path ≢ [] → data_get_by_path path d ≡ get_by_path path d
unfolding data_get_by_path get_by_path
data_get_by_path-get_by_path [] d ne = absurd (ne refl)
data_get_by_path-get_by_path (c ∷ path) d ne = elim (Bool-cases (contains_char (c ∷ path) b'.')) [
  | inl dot ↦
      ap (λ r. whole_or r found) (if_true _ _ dot) ∙ whole_or_twice (by_parts (c ∷ path) d) found
  | inr plain ↦
      ap (λ r. whole_or r found) (if_false _ _ plain ∙ sym (by_parts-whole (c ∷ path) d plain))
]
  where
    found : Option Any
    found = lookup (c ∷ path) d
