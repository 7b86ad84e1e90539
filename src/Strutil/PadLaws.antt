-- ===== src/Strutil/PadLaws.antt =====
-- What padding gives, and how long it is.
use goutil.Prelude.{
  ℕ, zero, suc, ◌+◌, ◌-◌, ◌*◌, ◌/◌, ◌%◌, ◌≤◌, ◌<◌, ◌≡◌, refl, ap, ◌∙◌, sym, arith, true, false,
  List, [], ◌∷◌, ◌++◌, ltb, leb, if◌then◌else◌, length, take, drop, replicate, set, append-nil,
  append_assoc, length-append, length-replicate, drop-length, length-take_of_le, if_true, if_false,
  Bool-cases, inl, inr,
}
use goutil.Prelude.Int.{pos}
use goutil.Prelude.Outcome.{done}
use goutil.Text.{Text, codes, byte_len}
use goutil.Strutil.Padding.{
  PosFlag, pos_middle, is_pos_right, copy_at, fill, pad_chars, pad_chars_to, resize, resize_middle,
}

module _ {A : Type 0} where
  set-append :
      (xs : List A) (y v : A) (ys : List A) → set (xs ++ y ∷ ys) (length xs) v ≡ xs ++ v ∷ ys
  set-append [] y v ys = refl
  set-append (x ∷ xs) y v ys = ap (◌∷◌ x) (set-append xs y v ys)

  -- A write at the end of what is written so far.
  set-next :
      (xs : List A) (y v : A) (ys : List A)
      → set (xs ++ y ∷ ys) (length xs) v ≡ (xs ++ v ∷ []) ++ ys
  set-next xs y v ys = set-append xs y v ys ∙ sym (append_assoc xs (v ∷ []) ys)

  length-next : (xs : List A) (v : A) → length (xs ++ v ∷ []) ≡ length xs + 1
  length-next xs v = length-append xs (v ∷ [])

  copy_at-append :
      (xs cs ys : List A)
      → length cs ≤ length ys
      → copy_at (length xs) cs (xs ++ ys) ≡ xs ++ cs ++ drop (length cs) ys
  unfolding copy_at
  copy_at-append xs [] ys h = rw (append-nil xs)
  copy_at-append xs (c ∷ cs) [] h = absurd (omega arith)
  copy_at-append xs (c ∷ cs) (y ∷ ys) h =
      ap (copy_at (length xs + 1) cs) (set-next xs y c ys)
      ∙ ap (λ n. copy_at n cs ((xs ++ c ∷ []) ++ ys)) (sym (length-next xs c))
      ∙ copy_at-append (xs ++ c ∷ []) cs ys (omega arith)
      ∙ ap (λ l. l ++ drop (length cs) ys) (append_assoc xs (c ∷ []) cs)

  fill-append :
      (xs : List A) (n : ℕ) (pad : A) (ys : List A)
      → n ≤ length ys
      → fill (length xs) n pad (xs ++ ys) ≡ xs ++ replicate n pad ++ drop n ys
  unfolding fill
  fill-append xs zero pad ys h = rw (append-nil xs)
  fill-append xs (suc n) pad [] h = absurd (omega arith)
  fill-append xs (suc n) pad (y ∷ ys) h =
      ap (fill (length xs + 1) n pad) (set-next xs y pad ys)
      ∙ ap (λ m. fill m n pad ((xs ++ pad ∷ []) ++ ys)) (sym (length-next xs pad))
      ∙ fill-append (xs ++ pad ∷ []) n pad ys (omega arith)
      ∙ ap (λ l. l ++ drop n ys) (append_assoc xs (pad ∷ []) (replicate n pad))

  length-drop_of_le : (n : ℕ) (xs : List A) → n ≤ length xs → length (drop n xs) ≡ length xs - n
  length-drop_of_le zero xs h = omega arith
  length-drop_of_le (suc n) [] h = absurd (omega arith)
  length-drop_of_le (suc n) (x ∷ xs) h = omega (arith, length-drop_of_le n xs (omega arith))

  -- All of `cs` copied over a slice of its length, or filled.
  copy_at-all :
      (xs cs ys : List A) → length cs ≡ length ys → copy_at (length xs) cs (xs ++ ys) ≡ xs ++ cs
  copy_at-all xs cs ys h =
      copy_at-append xs cs ys (omega arith)
      ∙ ap (λ l. xs ++ cs ++ l) (drop-length ys (length cs) (omega arith))
      ∙ append-nil (xs ++ cs)

  fill-all :
      (xs : List A) (n : ℕ) (pad : A) (ys : List A)
      → n ≡ length ys
      → fill (length xs) n pad (xs ++ ys) ≡ xs ++ replicate n pad
  fill-all xs n pad ys h =
      fill-append xs n pad ys (omega arith)
      ∙ ap (λ l. xs ++ replicate n pad ++ l) (drop-length ys n (omega arith))
      ∙ append-nil (xs ++ replicate n pad)

  module _ (zero_value pad : A) (cs : List A) where
    pad_chars_to-long :
        (len : ℕ) (flag : PosFlag)
        → len ≤ length cs
        → pad_chars_to zero_value cs pad len flag ≡ take len cs
    unfolding pad_chars_to
    pad_chars_to-long len flag h =
        let e : leb len (length cs) ≡ true = ground arith in
        if_true _ _ e
        ∙ copy_at-all [] (take len cs) (replicate len zero_value)
            (length-take_of_le len cs h ∙ sym (length-replicate len zero_value))

    pad_chars_to-right :
        (len : ℕ) (flag : PosFlag)
        → length cs < len
        → is_pos_right flag ≡ true
        → pad_chars_to zero_value cs pad len flag ≡ cs ++ replicate (len - length cs) pad
    unfolding pad_chars_to
    pad_chars_to-right len flag h right =
        let e : leb len (length cs) ≡ false = ground arith in
        let zeros = replicate len zero_value in
        if_false _ _ e
        ∙ if_true _ _ right
        ∙ ap (fill (length cs) (len - length cs) pad)
            (copy_at-append [] cs zeros (omega (arith, length-replicate len zero_value)))
        ∙ fill-all cs (len - length cs) pad (drop (length cs) zeros) (
            sym (
              length-drop_of_le (length cs) zeros (omega (arith, length-replicate len zero_value))
              ∙ ap (λ n. n - length cs) (length-replicate len zero_value)))

    pad_chars_to-left :
        (len : ℕ) (flag : PosFlag)
        → length cs < len
        → is_pos_right flag ≡ false
        → pad_chars_to zero_value cs pad len flag ≡ replicate (len - length cs) pad ++ cs
    unfolding pad_chars_to
    pad_chars_to-left len flag h left =
        let e : leb len (length cs) ≡ false = ground arith in
        let zeros = replicate len zero_value in
        let pads = replicate (len - length cs) pad in
        if_false _ _ e
        ∙ if_false _ _ left
        ∙ ap (copy_at (len - length cs) cs) (
            fill-append [] (len - length cs) pad zeros
              (omega (arith, length-replicate len zero_value)))
        ∙ ap (λ n. copy_at n cs (pads ++ drop (len - length cs) zeros))
            (sym (length-replicate (len - length cs) pad))
        ∙ copy_at-all pads cs (drop (len - length cs) zeros) (
            omega (
              arith,
              length-drop_of_le (len - length cs) zeros
                  (omega (arith, length-replicate len zero_value)),
              length-replicate len zero_value,
            ))

-- `PadChars` with a length that is not negative cuts a longer slice to the length; else it adds as
-- many pads as are missing, behind the slice for `PosRight` and in front of it otherwise. It does
-- not panic.
pub pad_chars-pads :
    {A : Type 0} (zero_value pad : A) (cs : List A) (len : ℕ) (flag : PosFlag)
    → pad_chars zero_value cs pad (pos len) flag
      ≡ done (
          if leb len (length cs)
          then take len cs
          else if is_pos_right flag
          then cs ++ replicate (len - length cs) pad
          else replicate (len - length cs) pad ++ cs)
unfolding pad_chars
pad_chars-pads zero_value pad cs len flag = ap done (elim (Bool-cases (leb len (length cs))) [
  | inl long ↦ pad_chars_to-long zero_value pad cs len flag (ground arith) ∙ sym (if_true _ _ long)
  | inr short ↦ elim (Bool-cases (is_pos_right flag)) [
    | inl right ↦
        pad_chars_to-right zero_value pad cs len flag (ground arith) right
        ∙ sym (if_false _ _ short ∙ if_true _ _ right)
    | inr left ↦
        pad_chars_to-left zero_value pad cs len flag (ground arith) left
        ∙ sym (if_false _ _ short ∙ if_false _ _ left)
  ]
])

byte_len-append : (s t : Text) → byte_len (s ++ t) ≡ byte_len s + byte_len t
unfolding byte_len
byte_len-append [] t = omega arith
byte_len-append (c ∷ s) t = omega (arith, byte_len-append s t)

byte_len-blanks : (n : ℕ) → byte_len (replicate n b' ') ≡ n
unfolding byte_len
byte_len-blanks zero = refl
byte_len-blanks (suc n) = omega (arith, byte_len-blanks n)

byte_len-one_blank : byte_len (codes " ") ≡ 1
unfolding byte_len
byte_len-one_blank = refl

-- `Resize` of a text that is not empty to the middle of a larger length has that length where the number of
-- missing bytes is odd, and one byte more where it is even.
pub resize-middle_length :
    (s : Text) (len : ℕ)
    → 0 < byte_len s
    → byte_len s < len
    → byte_len (resize s len pos_middle) ≡ len + 1 - (len - byte_len s) % 2
unfolding resize resize_middle
resize-middle_length s len filled h =
    let half = (len - byte_len s) / 2 in
    let pads : Text = replicate half b' ' in
    let short : leb len (byte_len s) ≡ false = ground arith in
    let wide : ltb (half * 2) len ≡ true = ground arith in
    ap byte_len (if_false _ _ short)
    ∙ ap (λ t. byte_len (pads ++ t ++ pads)) (if_true _ _ wide)
    ∙ omega (
      arith,
      byte_len-append (pads ++ (s ++ codes " ")) pads,
      byte_len-append pads (s ++ codes " "),
      byte_len-append s (codes " "),
      byte_len-blanks half,
      byte_len-one_blank,
    )
