-- ===== src/Strutil/BaseLaws.antt =====
-- strutil/convbase.go: BaseConv keeps the number that a text stands for.
use goutil.Prelude.{
  ℕ, zero, suc, ◌+◌, ◌-◌, ◌*◌, ◌/◌, ◌%◌, ◌^◌, ◌<◌, ◌≤◌, ◌≡◌, refl, sym, ap, ◌∙◌, arith, true, false,
  [], ◌∷◌, ◌++◌, none, some, ◌==◌, ltb, if_true, if_false, ◌≢◌, Bool-cases, inl, inr, length, take,
  get_elem?, get_elem?-some, append_assoc, append-nil, length-take_of_le,
}
use mathlib.Core.Path.{subst}
use native.Mathlib.Nat.{
  le-mul_of_pos_right, mod-lt, mul-le-mul_left, pow-suc, div-lt_iff_lt-mul, div-add-mod',
}
use goutil.Prelude.Int.{pos}
use goutil.Prelude.Outcome.{done}
use goutil.Text.{Text, index_char, text_eq}
use goutil.Text.Laws.{text_eq_iff}
use goutil.Conv.Parse.{parse_uint, uint_loop, is_digit, max_uint64}
use goutil.Conv.Unsigned.{wrap_uint64}
use goutil.Strutil.BaseConv.{
  base10_chars, base64_chars, decode_loop, decode, or_panic, with_digit, encode_loop, encode,
  base_conv_by_tpl, base_conv, not_base,
}
use goutil.Strutil.BaseDigits.{
  HasValue, no_digits, digit_behind, is_distinct, index_char-get_elem?, is_distinct-take,
  get_elem?_lt,
}

decode_loop-append :
    (from : Text) (n c : ℕ) (s : Text)
    → decode_loop from n (s ++ c ∷ [])
      ≡ (decode_loop from n s * length from % 2 ^ 64 + wrap_uint64 (index_char from c)) % 2 ^ 64
unfolding decode_loop
decode_loop-append from n c [] = refl
decode_loop-append from n c (d ∷ s) =
    decode_loop-append from ((n * length from % 2 ^ 64 + wrap_uint64 (index_char from d)) % 2 ^ 64)
      c s

step_exact : (x d : ℕ) → x + d < 2 ^ 64 → (x % 2 ^ 64 + wrap_uint64 (pos d)) % 2 ^ 64 ≡ x + d
unfolding wrap_uint64
step_exact x d h = omega arith

decode_loop-HasValue :
    {from s : Text} {n : ℕ}
    → HasValue from s n
    → is_distinct from ≡ true
    → n < 2 ^ 64
    → decode_loop from 0 s ≡ n
decode_loop-HasValue no_digits h b = unfold decode_loop in refl
decode_loop-HasValue (digit_behind {tpl = from} {s} {n} d {c} v g) h b =
    let l = get_elem?_lt from d c g in
    let kl = le-mul_of_pos_right {m = length from} n (omega arith) in
    let ih = decode_loop-HasValue v h (omega arith) in
    let e = index_char-get_elem? from d c h g in
    let e' = step_exact (n * length from) d b in decode_loop-append from 0 c s ∙ rw ih (rw e e')

-- The decimal digits.
abbrev count_up : ℕ → ℕ → Text
count_up k zero = []
count_up k (suc n) = k ∷ count_up (suc k) n

get_elem?-count_up : (k n d c : ℕ) → get_elem? (count_up k n) d ≡ some c → (c ≡ k + d) × (d < n)
get_elem?-count_up k zero d c h = cc
get_elem?-count_up k (suc n) zero c h = ground arith
get_elem?-count_up k (suc n) (suc d) c h =
    let (e, l) = get_elem?-count_up (suc k) n d c h in (omega arith, omega arith)

uint_loop-append :
    (m k c : ℕ) (s : Text)
    → uint_loop m s ≡ (k, none)
    → uint_loop m (s ++ c ∷ []) ≡ uint_loop k (c ∷ [])
unfolding uint_loop
uint_loop-append m k c [] h = let e : m ≡ k = ap (λ p. p.0) h in rw e
uint_loop-append m k c (d ∷ s) h =
    let n' = m * 10 + (d - b'0') in
    let rest = uint_loop-append n' k c s in
    elim (Bool-cases (is_digit d)) [
      | inl is_ten ↦ elim (Bool-cases (ltb max_uint64 n')) [
        | inl over ↦ let e = sym (if_true _ _ is_ten ∙ if_true _ _ over) ∙ h in cc e
        | inr fits ↦
            if_true _ _ is_ten
            ∙ if_false _ _ fits
            ∙ rest (sym (if_true _ _ is_ten ∙ if_false _ _ fits) ∙ h)
      ]
      | inr other ↦ let e = sym (if_false _ _ other) ∙ h in cc e
    ]

uint_step :
    (n d : ℕ) → d < 10 → n * 10 + d < 2 ^ 64 → uint_loop n ((b'0' + d) ∷ []) ≡ (n * 10 + d, none)
unfolding uint_loop
uint_step n d l h =
    let e : n * 10 + (b'0' + d - b'0') ≡ n * 10 + d = omega arith in
    let digit : is_digit (b'0' + d) ≡ true = ground arith in
    let fits : ltb max_uint64 (n * 10 + (b'0' + d - b'0')) ≡ false = ground arith in
    if_true _ _ digit ∙ if_false _ _ fits ∙ ap (λ x. (x, none)) e

uint_loop-HasValue :
    {from s : Text} {n : ℕ}
    → HasValue from s n
    → from ≡ base10_chars
    → n < 2 ^ 64
    → uint_loop 0 s ≡ (n, none)
uint_loop-HasValue no_digits h b = unfold uint_loop in refl
uint_loop-HasValue (digit_behind {tpl = from} {s} {n} d {c} v g) h b =
    let (e, l) =
      get_elem?-count_up b'0' 10 d c (subst (λ (x : Text). get_elem? x d ≡ some c) h g) in
    let w : length from ≡ 10 = ap length h in
    let kl : n * length from ≡ n * 10 = ap (λ x. n * x) w in
    let ih = uint_loop-HasValue v h (omega arith) in
    uint_loop-append 0 n c s ih ∙ (rw kl (rw e (uint_step n d l (omega arith))))

encode_step :
    (fuel : ℕ) (to : Text) (n : ℕ) (res : Text) (c : ℕ)
    → get_elem? to (suc n % length to) ≡ some c
    → encode_loop (suc fuel) to (suc n) res ≡ encode_loop fuel to (suc n / length to) (c ∷ res)
unfolding encode_loop
encode_step fuel to n res c h =
    let more : suc n == 0 ≡ false = ground arith in
    if_false _ _ more
    ∙ ap (λ o. with_digit o (λ c. encode_loop fuel to (suc n / length to) (c ∷ res))) h

encode_loop-HasValue :
    (fuel : ℕ) (to : Text) (n : ℕ) (res : Text)
    → 2 ≤ length to
    → n < 2 ^ fuel
    → (t : Text) × (encode_loop fuel to n res ≡ some (done (t ++ res))) × HasValue to t n
encode_loop-HasValue zero to zero res l h = ([], unfold encode_loop in refl, no_digits)
encode_loop-HasValue zero to (suc n) res l h = absurd (omega arith)
encode_loop-HasValue (suc fuel) to zero res l h = ([], unfold encode_loop in refl, no_digits)
encode_loop-HasValue (suc fuel) to (suc n) res l h =
    let len = length to in
    let (c, g) = get_elem?-some to (suc n % len) (mod-lt (suc n) (omega arith)) in
    let twice = mul-le-mul_left (2 ^ fuel) l in
    let less =
      (div-lt_iff_lt-mul {k = len} {x = suc n} {y = 2 ^ fuel} (omega arith)).1
        (omega (arith, pow-suc 2 fuel, twice)) in
    let (t, e, v) = encode_loop-HasValue fuel to (suc n / len) (c ∷ res) l less in
    (
      t ++ c ∷ [],
      encode_step fuel to n res c g
          ∙ e
          ∙ ap (λ x. some (done x)) (sym (append_assoc t (c ∷ []) res)),
      subst (HasValue to (t ++ c ∷ [])) (div-add-mod' (suc n) len) (digit_behind _ v g),
    )

parse_uint-uint_loop : (s : Text) → s ≢ [] → parse_uint s ≡ uint_loop 0 s
unfolding parse_uint
parse_uint-uint_loop [] h = absurd (h refl)
parse_uint-uint_loop (c ∷ s) h = refl

decode-HasValue :
    {from s : Text} {n : ℕ}
    → HasValue from s n
    → is_distinct from ≡ true
    → s ≢ []
    → n < 2 ^ 64
    → decode from s ≡ done n
unfolding decode
decode-HasValue {from = from} {s = s} v h f b = elim (Bool-cases (text_eq from base10_chars)) [
  | inl ten ↦
      let e = (text_eq_iff from base10_chars).0 ten in
      if_true _ _ ten ∙ ap or_panic (parse_uint-uint_loop s f ∙ uint_loop-HasValue v e b)
  | inr other ↦ if_false _ _ other ∙ ap done (decode_loop-HasValue v h b)
]

-- BaseConvByTpl keeps the number: where the digits of the source's base stand once in its template,
-- the new base has at least two digits, and the source is a text of digits that is not empty and
-- stands for a number below 2^64, the loop ends within 64 rounds, without a panic, and the result
-- stands for the same number in the new base.
base_conv_by_tpl-HasValue :
    (src from to : Text) (n : ℕ)
    → is_distinct from ≡ true
    → 2 ≤ length to
    → src ≢ []
    → HasValue from src n
    → n < 2 ^ 64
    → (t : Text) × (base_conv_by_tpl 64 src from to ≡ some (done t)) × HasValue to t n
unfolding base_conv_by_tpl
base_conv_by_tpl-HasValue src from to n h l f v b = elim (Bool-cases (text_eq from to)) [
  | inl same ↦
      let e = (text_eq_iff from to).0 same in
      (src, if_true _ _ same, subst (λ (x : Text). HasValue x src n) e v)
  | inr other ↦
      let (t, e, w) = encode_loop-HasValue 64 to n [] l b in
      (
        t,
        if_false _ _ other
            ∙ ap (encode 64 to) (decode-HasValue v h f b)
            ∙ e
            ∙ ap (λ x. some (done x)) (append-nil t),
        w,
      )
]

chars-is_distinct : is_distinct base64_chars ≡ true
unfolding is_distinct
chars-is_distinct = refl

not_base_of_le : (n : ℕ) → 2 ≤ n → n ≤ 64 → not_base (pos n) ≡ false
not_base_of_le n l h = ground arith

-- BaseConv keeps the number, from each base from 2 to 64 to each: a source that is not empty, of
-- digits of the first base, and stands for a number below 2^64 gives within 64 rounds of the loop,
-- without a panic, a text that stands for the same number in the second base.
pub base_conv-HasValue :
    (src : Text) (from to n : ℕ)
    → 2 ≤ from
    → from ≤ 64
    → 2 ≤ to
    → to ≤ 64
    → src ≢ []
    → HasValue (take from base64_chars) src n
    → n < 2 ^ 64
    → (t : Text) × (base_conv 64 src (pos from) (pos to) ≡ some (done t))
      × HasValue (take to base64_chars) t n
unfolding base_conv
base_conv-HasValue src from to n f f' l l' s v b =
    let w = length-take_of_le to base64_chars l' in
    let d = is_distinct-take from base64_chars chars-is_distinct in
    let (t, e, r) =
      base_conv_by_tpl-HasValue src (take from base64_chars) (take to base64_chars) n d
        (omega (arith, w, l)) s v b in
    let source = if_false _ _ (not_base_of_le from f f') in
    (t, source ∙ if_false _ _ (not_base_of_le to l l') ∙ e, r)
