-- ===== src/Textscan/QuotedLines.antt =====
-- The lines of a value between three quotes.
use mathlib.Core.List.{reverse, reverse-append}
use goutil.Prelude.{
  ℕ, ◌+◌, ◌-◌, ◌≡◌, refl, ap, ◌∙◌, arith, Bool, true, false, List, [], ◌∷◌, ◌++◌, length, take,
  length-append, if_true, if_false, if◌then◌else◌,
}
use goutil.Text.{Text, is_space, trim_space, has_prefix, has_suffix, last_or, text_eq}
use goutil.Text.Trim.{trim_space_ends}
use goutil.Textscan.More.{
  mark_s, mark_d, without_mark, detect_end, value_lines, after_detect, more_line,
}

-- Three double or three single quotes.
abbrev pub mark_of : Bool → Text
mark_of true = mark_d
mark_of false = mark_s

-- A line inside: trimmed, it does not end with the mark.
abbrev pub AllInside : Bool → List Text → Type 0
AllInside double [] = Unit
AllInside double (l ∷ ls) =
    (has_suffix (trim_space l) (mark_of double) ≡ false) × AllInside double ls

detect_end-inside :
    (double : Bool) (l : Text)
    → has_suffix (trim_space l) (mark_of double) ≡ false
    → detect_end (mark_of double) l ≡ (false, l)
unfolding detect_end text_eq
detect_end-inside true l h = if_false _ _ h
detect_end-inside false l h = if_false _ _ h

-- Nothing, or a text that begins with no space.
abbrev pub NoSpaceFirst : Text → Type 0
NoSpaceFirst [] = Unit
NoSpaceFirst (c ∷ s) = is_space c ≡ false

has_prefix-append : (p r : Text) → has_prefix (p ++ r) p ≡ true
unfolding has_prefix
has_prefix-append [] r = refl
has_prefix-append (c ∷ p) r = ground (arith, has_prefix-append p r)

has_suffix-append : (s p : Text) → has_suffix (s ++ p) p ≡ true
unfolding has_suffix
has_suffix-append s p =
    ap (λ t. has_prefix t (reverse p)) (reverse-append s p)
    ∙ has_prefix-append (reverse p) (reverse s)

take-length_append : (s t : Text) → take (length s) (s ++ t) ≡ s
take-length_append [] t = refl
take-length_append (c ∷ s) t = ap (◌∷◌ c) (take-length_append s t)

length-mark : (double : Bool) → length (mark_of double) ≡ 3
length-mark true = refl
length-mark false = refl

without_mark-append : (double : Bool) (s : Text) → without_mark (s ++ mark_of double) ≡ s
without_mark-append double s =
    let e : length (s ++ mark_of double) - 3 ≡ length s =
      omega (arith, length-append s (mark_of double), length-mark double) in
    ap (λ n. take n (s ++ mark_of double)) e ∙ take-length_append s (mark_of double)

last_or-mark :
    (double : Bool) (c : ℕ) (s : Text) → is_space (last_or c (s ++ mark_of double)) ≡ false
unfolding last_or is_space
last_or-mark true c [] = refl
last_or-mark false c [] = refl
last_or-mark double c (d ∷ s) = last_or-mark double d s

trim_space-mark :
    (double : Bool) (body : Text)
    → NoSpaceFirst body
    → trim_space (body ++ mark_of double) ≡ body ++ mark_of double
trim_space-mark true [] h =
    trim_space_ends b'"' _ (unfold is_space in refl) (unfold last_or is_space in refl)
trim_space-mark false [] h =
    trim_space_ends b'\'' _ (unfold is_space in refl) (unfold last_or is_space in refl)
trim_space-mark double (c ∷ s) h =
    trim_space_ends c (s ++ mark_of double) h (last_or-mark double c s)

closing :
    (double : Bool) (body : Text)
    → NoSpaceFirst body
    → ◌≡◌ {A = Bool × Text}
        (if has_suffix (trim_space (body ++ mark_of double)) (mark_of double)
          then (true, without_mark (trim_space (body ++ mark_of double)))
          else (false, body ++ mark_of double))
        (true, body)
closing double body h =
    let e = trim_space-mark double body h in
    if_true _ _
      (ap (λ t. has_suffix t (mark_of double)) e ∙ has_suffix-append body (mark_of double))
    ∙ ap (λ t. (true, without_mark t)) e
    ∙ ap (λ t. (true, t)) (without_mark-append double body)

detect_end-closing :
    (double : Bool) (body : Text)
    → NoSpaceFirst body
    → detect_end (mark_of double) (body ++ mark_of double) ≡ (true, body)
unfolding detect_end text_eq
detect_end-closing true body h = closing true body h
detect_end-closing false body h = closing false body h

pub value_lines-closed :
    (double : Bool) (lines : List Text) (body : Text) (rest : List Text)
    → AllInside double lines
    → NoSpaceFirst body
    → value_lines (mark_of double) (lines ++ (body ++ mark_of double) ∷ rest)
      ≡ record { read = lines ++ body ∷ []; count = length lines + 1; rest = rest; ended = true }
unfolding value_lines
value_lines-closed double [] body rest hs h =
    ap (after_detect _ rest (value_lines (mark_of double) rest)) (detect_end-closing double body h)
value_lines-closed double (l ∷ lines) body rest (hl, hs) h =
    let last = body ++ mark_of double in
    ap (after_detect l (lines ++ last ∷ rest) (value_lines (mark_of double) (lines ++ last ∷ rest)))
      (detect_end-inside double l hl)
    ∙ ap (more_line l) (value_lines-closed double lines body rest hs h)
    ∙ ground arith

pub value_lines-open :
    (double : Bool) (lines : List Text)
    → AllInside double lines
    → value_lines (mark_of double) lines
      ≡ record { read = lines; count = length lines; rest = []; ended = false }
unfolding value_lines
value_lines-open double [] hs = refl
value_lines-open double (l ∷ lines) (hl, hs) =
    ap (after_detect l lines (value_lines (mark_of double) lines)) (detect_end-inside double l hl)
    ∙ ap (more_line l) (value_lines-open double lines hs)
    ∙ ground arith
