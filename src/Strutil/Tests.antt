-- ===== src/Strutil/Tests.antt =====
-- The operations on texts run on concrete values.
use goutil.Prelude.{
  ℕ, ◌+◌, ◌-◌, some, ◌%◌, ◌≤◌, ◌≡◌, refl, arith, true, false, List, [], ◌∷◌, ◌++◌, length, leb,
  take, replicate, if◌then◌else◌,
}
use goutil.Prelude.Int.{pos, negsuc}
use goutil.Prelude.Outcome.{done}
use goutil.Conv.Unsigned.{wrap_uint64}
use goutil.Text.{
  codes, text_eq, byte_len, trim_space, is_space, split_text, has_prefix, index_char, trim_right_by,
  last_index_text, join_char,
}
use goutil.Strutil.Cut.{
  cut, before_first, after_first, after_last, split, split_n, substr, split_inline_comment,
}
use goutil.Strutil.CutLaws.{split-join_char}
use goutil.Strutil.CutSearch.{cut-first_parts, before_first-cut}
use goutil.Strutil.BaseConv.{base_conv, base64_chars}
use goutil.Strutil.BaseDigits.{HasValue, no_digits, digit_behind}
use goutil.Strutil.BaseLaws.{base_conv-HasValue}
use goutil.Strutil.Padding.{pos_left, pos_middle, is_pos_right, pad_chars, resize}
use goutil.Strutil.PadLaws.{pad_chars-pads, resize-middle_length}

split_n_ab : split_n (codes "a, ,b,c") (codes ",") (pos 2) ≡ codes "a" ∷ codes "b,c" ∷ []
unfolding split_n trim_space is_space split_text has_prefix
split_n_ab = refl

substr_end : substr (codes "hello") (pos 1) (negsuc 0) ≡ done (codes "ell")
unfolding substr
substr_end = refl

after_last_dot : after_last (codes "a.b.go") (codes ".") ≡ codes "go"
unfolding after_last last_index_text has_prefix
after_last_dot = refl

inline_comment : split_inline_comment (codes "a = 1 # one") false ≡ (codes "a = 1", codes "# one")
unfolding split_inline_comment index_char trim_right_by
inline_comment = refl

cut-first_parts_example :
    (let r = cut (codes "a:b" ++ (codes ":" ++ codes "c")) (codes ":") in
      (r.2 ≡ true)
      × (length r.0 ≤ length (codes "a:b"))
      × (codes "a:b" ++ (codes ":" ++ codes "c") ≡ r.0 ++ codes ":" ++ r.1))
cut-first_parts_example = cut-first_parts (codes "a:b") (codes ":") (codes "c")

before_first-cut_example :
    (before_first (codes "k=v") (codes "=") ≡ (cut (codes "k=v") (codes "=")).0)
    × (after_first (codes "k=v") (codes "=") ≡ (cut (codes "k=v") (codes "=")).1)
before_first-cut_example = before_first-cut (codes "k=v") (codes "=")

split-join_char_example :
    split (join_char b',' (codes "ab" ∷ codes "c" ∷ [])) (codes ",") ≡ codes "ab" ∷ codes "c" ∷ []
unfolding is_space
split-join_char_example =
    split-join_char b',' b'a' (codes "b") (codes "c" ∷ []) refl
      ((refl, (refl, tt)), ((refl, tt), tt))

abbrev two_runes : List ℕ
two_runes = 7 ∷ 8 ∷ []

pad_chars-pads_example :
    pad_chars {A = ℕ} 0 two_runes 9 (pos 5) pos_left
    ≡ done (
        if leb 5 (length two_runes)
        then take 5 two_runes
        else if is_pos_right pos_left
        then two_runes ++ replicate (5 - length two_runes) 9
        else replicate (5 - length two_runes) 9 ++ two_runes)
pad_chars-pads_example = pad_chars-pads 0 9 two_runes 5 pos_left

resize-middle_length_example :
    byte_len (resize (codes "ab") 6 pos_middle) ≡ 6 + 1 - (6 - byte_len (codes "ab")) % 2
unfolding byte_len
resize-middle_length_example = resize-middle_length (codes "ab") 6 (omega arith) (omega arith)

-- The number 0 is written as the empty text.
base_conv_zero : base_conv 64 (codes "0") (pos 16) (pos 2) ≡ some (done [])
unfolding base_conv text_eq wrap_uint64 index_char
base_conv_zero = refl

base_conv-HasValue_example :
    (t : List ℕ) × (base_conv 64 (codes "7b") (pos 16) (pos 10) ≡ some (done t))
    × HasValue (take 10 base64_chars) t 123
base_conv-HasValue_example =
    base_conv-HasValue (codes "7b") 16 10 123 (omega arith) (omega arith) (omega arith)
      (omega arith) (λ e. absurd (cc e)) (digit_behind 11 (digit_behind 7 no_digits refl) refl)
      (omega arith)
