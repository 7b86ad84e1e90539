-- ===== src/Varexpr/Expressions.antt =====
-- internal/varexpr/varexpr.go: the expressions between `${` and `}`, and what each stands for.
use goutil.Prelude.{
  ℕ, ◌≡◌, refl, ◌∙◌, arith, Bool, false, not, ◌&&◌, [], ◌∷◌, ◌++◌, Option, none, some, ◌==◌,
  if◌then◌else◌, if_false,
}
use goutil.Text.{Text, codes, is_space, cut_char}
use goutil.Text.Laws.{Every}
use goutil.Text.Splits.{differs}
use goutil.Text.Trim.{TrimmedText, trim_space-TrimmedText}
use goutil.Strutil.Cut.{is_empty}
use goutil.Varexpr.{parse_inner, value_or, use_default}

-- A name; a name with a default; a name whose value is required, with the message for an empty one.
-- Spaces may stand around each part.
pub data Expr : Type 0 where
  only_name : Text → Text → Text → Expr
  with_default : Text → Text → Text → Text → Text → Text → Expr
  required : Text → Text → Text → Text → Text → Text → Expr

abbrev pub bar : ℕ
bar = b'|'

abbrev pub expr_text : Expr → Text
expr_text (only_name w name w') = w ++ (name ++ w')
expr_text (with_default w name w' v def v') = (w ++ (name ++ w')) ++ (bar ∷ (v ++ (def ++ v')))
expr_text (required w name w' v msg v') = (w ++ (name ++ w')) ++ (bar ∷ (v ++ ((b'?' ∷ msg) ++ v')))

abbrev pub error_for : Text → Text → Text
error_for name msg = if is_empty msg then codes "value is required for var: " ++ name else msg

-- What an expression stands for: the value of the name, and where that is empty the default or the
-- error.
abbrev pub expr_value : (Text → Text) → Expr → Text × Option Text
expr_value getter (only_name w name w') = (getter name, none)
expr_value getter (with_default w name w' v def v') =
    if is_empty (getter name) then (def, none) else (getter name, none)
expr_value getter (required w name w' v msg v') =
    if is_empty (getter name) then ([], some (error_for name msg)) else (getter name, none)

abbrev pub inner_char : ℕ → Bool
inner_char c = not (c == b'}') && not (c == b'\n')

-- The name, between its spaces, has no bar and no space at its ends.
abbrev pub IsName : Text → Text → Text → Type 0
IsName w name w' =
    Every is_space w
    × TrimmedText name
    × Every is_space w'
    × Every (differs bar) (w ++ (name ++ w'))

abbrev pub NoMark : Text → Type 0
NoMark [] = Unit
NoMark (c ∷ s) = (c == b'?') ≡ false

abbrev pub IsParts : Expr → Type 0
IsParts (only_name w name w') = IsName w name w'
IsParts (with_default w name w' v def v') =
    IsName w name w' × Every is_space v × TrimmedText def × NoMark def × Every is_space v'
IsParts (required w name w' v msg v') =
    IsName w name w' × Every is_space v × TrimmedText (b'?' ∷ msg) × Every is_space v'

-- The text of an expression is not empty and has no `}` and no newline.
abbrev pub IsExpr : Expr → Type 0
IsExpr e = IsParts e × Every inner_char (expr_text e) × (is_empty (expr_text e) ≡ false)

cut_char-none : (s : Text) → Every (differs bar) s → cut_char bar s ≡ (s, none)
unfolding cut_char
cut_char-none [] h = refl
cut_char-none (c ∷ s) (hc, h) = ground (arith, cut_char-none s h)

cut_char-some : (s t : Text) → Every (differs bar) s → cut_char bar (s ++ bar ∷ t) ≡ (s, some t)
unfolding cut_char
cut_char-some [] t h = refl
cut_char-some (c ∷ s) t (hc, h) = ground (arith, cut_char-some s t h)

abbrev value_of : (Text → Text) → Text → Text → Text × Option Text
value_of getter name def = value_or name (getter name) def

parse_inner-bar :
    (getter : Text → Text) (w name w' v def v' : Text)
    → IsName w name w'
    → Every is_space v
    → TrimmedText def
    → Every is_space v'
    → parse_inner getter ((w ++ (name ++ w')) ++ (bar ∷ (v ++ (def ++ v'))))
      ≡ value_of getter name def
unfolding parse_inner
parse_inner-bar getter w name w' v def v' (hw, hn, hw', hb) hv hd hv' = rw (
  cut_char-some (w ++ (name ++ w')) (v ++ (def ++ v')) hb,
  trim_space-TrimmedText w name w' hw hn hw',
  trim_space-TrimmedText v def v' hv hd hv',
)

only_value : (name val : Text) → value_or name val [] ≡ (val, none)
unfolding value_or use_default
only_value name [] = refl
only_value name (c ∷ val) = refl

default_value :
    (name val def : Text)
    → NoMark def
    → value_or name val def ≡ (if is_empty val then (def, none) else (val, none))
unfolding value_or use_default
default_value name [] [] h = refl
default_value name [] (d ∷ def) h = if_false _ _ h
default_value name (c ∷ val) def h = refl

required_value :
    (name val msg : Text)
    → value_or name val (b'?' ∷ msg)
      ≡ (if is_empty val then ([], some (error_for name msg)) else (val, none))
unfolding value_or use_default
required_value name [] [] = refl
required_value name [] (m ∷ msg) = ground arith
required_value name (c ∷ val) msg = refl

pub parse_inner-expr_value :
    (getter : Text → Text) (e : Expr)
    → IsParts e
    → parse_inner getter (expr_text e) ≡ expr_value getter e
unfolding parse_inner
parse_inner-expr_value getter (only_name w name w') (hw, hn, hw', hb) =
    rw (cut_char-none (w ++ (name ++ w')) hb, trim_space-TrimmedText w name w' hw hn hw')
      (only_value name (getter name))
parse_inner-expr_value getter (with_default w name w' v def v') (hn, hv, hd, hq, hv') =
    parse_inner-bar getter w name w' v def v' hn hv hd hv' ∙ default_value name (getter name) def hq
parse_inner-expr_value getter (required w name w' v msg v') (hn, hv, hm, hv') =
    parse_inner-bar getter w name w' v (b'?' ∷ msg) v' hn hv hm hv'
    ∙ required_value name (getter name) msg
