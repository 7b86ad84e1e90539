-- ===== src/Maputil/Brackets.antt =====
-- The last key with an index between brackets.
use goutil.Prelude.{
  ℕ, suc, ◌+◌, ◌≡◌, refl, ap, ◌∙◌, arith, true, false, not, ◌&&◌, [], ◌∷◌, ◌++◌, none, length, take,
  drop, if_false, ◌==◌, append_assoc,
}
use mathlib.Core.List.{reverse-append}
use goutil.Prelude.Int.{ℤ, pos}
use goutil.Text.{Text, codes, has_suffix, has_prefix, index_char, index_char_from, drop_last}
use goutil.Text.Laws.{Every}
use goutil.Text.Splits.{differs}
use goutil.Strutil.Cut.{is_empty}
use goutil.Conv.Parse.{parse_int}
use goutil.Maputil.Make.{parse_arr_key_index, at_bracket, inner_text, index_result}

index_char_from-append :
    (i b : ℕ) (s rest : Text)
    → Every (differs b) s
    → index_char_from i b (s ++ b ∷ rest) ≡ pos (i + length s)
unfolding index_char_from
index_char_from-append i b [] rest h = ground arith
index_char_from-append i b (c ∷ s) rest (hc, h) =
    let e : i + suc (length s) ≡ i + 1 + length s = omega arith in
    ground (arith, index_char_from-append (i + 1) b s rest h)

drop_last_concat : (s : Text) (c : ℕ) → drop_last (s ++ c ∷ []) ≡ s
unfolding drop_last
drop_last_concat [] c = refl
drop_last_concat (d ∷ []) c = refl
drop_last_concat (d ∷ e ∷ s) c = ap (◌∷◌ d) (drop_last_concat (e ∷ s) c)

take-length_append : (s t : Text) → take (length s) (s ++ t) ≡ s
take-length_append [] t = refl
take-length_append (c ∷ s) t = ap (◌∷◌ c) (take-length_append s t)

drop-length_append : (s : Text) (b : ℕ) (t : Text) → drop (suc (length s)) (s ++ b ∷ t) ≡ t
drop-length_append [] b t = refl
drop-length_append (c ∷ s) b t = drop-length_append s b t

same : (c : ℕ) → ((c == c) && true) ≡ true
same c = ground arith

has_suffix_concat : (s : Text) (c : ℕ) → has_suffix (s ++ c ∷ []) (c ∷ []) ≡ true
unfolding has_suffix has_prefix
has_suffix_concat s c = ap (λ t. has_prefix t (c ∷ [])) (reverse-append s (c ∷ [])) ∙ same c

-- `name[idx]`
abbrev pub bracketed : Text → Text → Text
bracketed name idx = name ++ (b'[' ∷ (idx ++ b']' ∷ []))

pub parse_arr_key_index-bracketed :
    (c : ℕ) (name : Text) (d : ℕ) (idx : Text) (i : ℕ)
    → Every (differs b'[') (c ∷ name)
    → parse_int (d ∷ idx) ≡ (pos i, none)
    → parse_arr_key_index (bracketed (c ∷ name) (d ∷ idx)) ≡ (c ∷ name, pos i, true)
unfolding parse_arr_key_index index_char
parse_arr_key_index-bracketed c name d idx i h e =
    let key = bracketed (c ∷ name) (d ∷ idx) in
    let at : index_char key b'[' ≡ pos (suc (length name)) =
      index_char_from-append 0 b'[' (c ∷ name) ((d ∷ idx) ++ b']' ∷ []) h ∙ ap pos (omega arith) in
    let whole : key ≡ ((c ∷ name) ++ (b'[' ∷ (d ∷ idx))) ++ b']' ∷ [] = simp append_assoc in
    let closed : has_suffix key (codes "]") ≡ true =
      ap (λ t. has_suffix t (codes "]")) whole
      ∙ has_suffix_concat ((c ∷ name) ++ (b'[' ∷ (d ∷ idx))) b']' in
    let inner : inner_text key (suc (length name)) ≡ d ∷ idx =
      ap drop_last (drop-length_append (c ∷ name) b'[' ((d ∷ idx) ++ b']' ∷ []))
      ∙ drop_last_concat (d ∷ idx) b']' in
    let front : take (suc (length name)) key ≡ c ∷ name = take-length_append (c ∷ name) _ in
    ap (at_bracket key) at
    ∙ if_false _ _ (ap not closed)
    ∙ if_false _ _ (ap is_empty inner)
    ∙ ap (λ t. index_result key (take (suc (length name)) key) (parse_int t)) inner
    ∙ ap (index_result key (take (suc (length name)) key)) e
    ∙ ap (λ t. (t, pos i, true)) front

index_char_from-none :
    (i b : ℕ) (s : Text) → Every (differs b) s → index_char_from i b s ≡ ℤ.negsuc 0
unfolding index_char_from
index_char_from-none i b [] h = refl
index_char_from-none i b (c ∷ s) (hc, h) = ground (arith, index_char_from-none (i + 1) b s h)

pub parse_arr_key_index-plain :
    (k : Text) → Every (differs b'[') k → parse_arr_key_index k ≡ (k, pos 0, false)
unfolding parse_arr_key_index index_char
parse_arr_key_index-plain k h = ap (at_bracket k) (index_char_from-none 0 b'[' k h)
