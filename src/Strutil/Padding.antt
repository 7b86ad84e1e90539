-- ===== src/Strutil/Padding.antt =====
-- The operations of strutil/padding.go. `len` of a string counts bytes; `%7s` counts code points.
use goutil.Prelude.{
  ℕ, zero, suc, ◌+◌, ◌-◌, ◌*◌, ◌/◌, Bool, true, false, ◌||◌, List, [], ◌∷◌, ◌++◌, ltb, leb,
  if◌then◌else◌, length, take, replicate, set,
}
use goutil.Prelude.Int.{ℤ, pos, negsuc}
use goutil.Prelude.Outcome.{Outcome, done, panics}
use goutil.Text.{Text, codes, text_eq, byte_len}
use goutil.Strutil.Cut.{is_empty}

pub data PosFlag : Type 0 where
  pos_left pos_right pos_middle : PosFlag

abbrev pub is_pos_right : PosFlag → Bool
is_pos_right pos_right = true
is_pos_right _ = false

-- The loop of the builder.
unfoldable pub repeat : Text → ℕ → Text
repeat s zero = []
repeat s (suc times) = s ++ repeat s times

-- `fmt.Sprintf("%7s", s)`, or `"%-7s"`: blanks up to a number of code points.
unfoldable pub sprintf_width : Text → ℕ → PosFlag → Text
sprintf_width s width flag =
    if is_pos_right flag
    then s ++ replicate (width - length s) b' '
    else replicate (width - length s) b' ' ++ s

-- A length below 0 needs no padding, like 0.
unfoldable pub padding : Text → Text → ℕ → PosFlag → Text
unfolding sprintf_width repeat
padding s pad len flag =
    if leb len (byte_len s)
    then s
    else if is_empty pad || text_eq pad (codes " ")
    then sprintf_width s len flag
    else if is_pos_right flag
    then s ++ repeat pad (len - byte_len s)
    else repeat pad (len - byte_len s) ++ s

unfoldable pub pad_left : Text → Text → ℕ → Text
unfolding padding
pad_left s pad len = padding s pad len pos_left

unfoldable pub pad_right : Text → Text → ℕ → Text
unfolding padding
pad_right s pad len = padding s pad len pos_right

-- The middle case of `Resize`: `diff := length - padLn*2; diff > 0`.
unfoldable pub resize_middle : Text → ℕ → Text
resize_middle s len =
    let pad_ln = (len - byte_len s) / 2 in
    let s' = if ltb (pad_ln * 2) len then s ++ codes " " else s in
    replicate pad_ln b' ' ++ s' ++ replicate pad_ln b' '

unfoldable pub resize : Text → ℕ → PosFlag → Text
unfolding resize_middle padding
resize s len pos_middle = if leb len (byte_len s) then s else resize_middle s len
resize s len pos_left = if leb len (byte_len s) then s else padding s (codes " ") len pos_left
resize s len pos_right = if leb len (byte_len s) then s else padding s (codes " ") len pos_right

module _ {A : Type 0} where
  -- `copy(ns[at:], cs)`
  unfoldable pub copy_at : ℕ → List A → List A → List A
  copy_at i [] ns = ns
  copy_at i (c ∷ cs) ns = copy_at (i + 1) cs (set ns i c)

  -- `for i := from; i < from+rounds; i++ { ns[i] = pad }`
  unfoldable pub fill : ℕ → ℕ → A → List A → List A
  fill i zero pad ns = ns
  fill i (suc rounds) pad ns = fill (i + 1) rounds pad (set ns i pad)

  -- `zero_value` fills the slice that `make` returns.
  unfoldable pub pad_chars_to : A → List A → A → ℕ → PosFlag → List A
  unfolding copy_at fill
  pad_chars_to zero_value cs pad len flag =
      if leb len (length cs)
      then copy_at 0 (take len cs) (replicate len zero_value)
      else if is_pos_right flag
      then fill (length cs) (len - length cs) pad (copy_at 0 cs (replicate len zero_value))
      else copy_at (len - length cs) cs (fill 0 (len - length cs) pad (replicate len zero_value))

  -- A negative length panics, in the slice of the characters or in `make`.
  unfoldable pub pad_chars : A → List A → A → ℤ → PosFlag → Outcome (List A)
  unfolding pad_chars_to
  pad_chars zero_value cs pad (pos len) flag = done (pad_chars_to zero_value cs pad len flag)
  pad_chars zero_value cs pad (negsuc n) flag = panics

  unfoldable pub repeat_chars : A → A → ℕ → List A
  unfolding fill
  repeat_chars zero_value char times = fill 0 times char (replicate times zero_value)
