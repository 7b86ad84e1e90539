-- ===== src/Varexpr/Tests.antt =====
-- The theorems on varexpr at small texts.
use goutil.Prelude.{◌≡◌, refl, false, List, [], ◌∷◌, none, some, if◌then◌else◌}
use goutil.Text.{
  Text, codes, text_eq, is_space, trim_space, has_prefix, has_suffix, cut_char, drop_last, last_or,
}
use goutil.Text.Laws.{Every-of_every}
use goutil.Varexpr.{count_left, parse}
use goutil.Varexpr.Matches.{plain_char}
use goutil.Varexpr.Segments.{Segment, literal, expr, render, expand, is_whole, parse-expand}
use goutil.Text.Splits.{differs}
use goutil.Varexpr.Expressions.{Expr, only_name, with_default, bar, inner_char, expr_value, IsExpr}

-- An environment with one variable.
abbrev env : Text → Text
env name = if text_eq name (codes "HOME") then codes "/root" else []

abbrev home : Expr
home = only_name (codes " ") (codes "HOME") []

abbrev x_or_y : Expr
x_or_y = with_default [] (codes "X") (codes " ") (codes " ") (codes "y") []

abbrev path : List Segment
path = literal (codes "at ") ∷ expr home ∷ literal (codes "/") ∷ expr x_or_y ∷ []

not_whole : is_whole (render path) ≡ false
unfolding count_left has_prefix
not_whole = refl

home-IsExpr : IsExpr home
unfolding is_space last_or
home-IsExpr = (
  ((refl, tt), (refl, refl), tt, Every-of_every (differs bar) (codes " HOME") refl),
  Every-of_every inner_char (codes " HOME") refl,
  refl,
)

x_or_y-IsExpr : IsExpr x_or_y
unfolding is_space last_or
x_or_y-IsExpr = (
  (
    (tt, (refl, refl), (refl, tt), Every-of_every (differs bar) (codes "X ") refl),
    (refl, tt),
    (refl, refl),
    refl,
    tt,
  ),
  Every-of_every inner_char (codes "X | y") refl,
  refl,
)

parse-path : parse env (render path) ≡ (codes "at /root/y", none)
unfolding parse has_prefix has_suffix drop_last cut_char trim_space is_space text_eq
parse-path = refl

parse-required : parse env (codes "${X | ?no X}") ≡ ([], some (codes "no X"))
unfolding parse has_prefix has_suffix drop_last cut_char trim_space is_space text_eq
parse-required = refl

parse-expand_example :
    (parse env (render path) ≡ expand env none path)
    × (parse env (render (expr x_or_y ∷ [])) ≡ expr_value env x_or_y)
parse-expand_example =
    parse-expand env path x_or_y
      (
        Every-of_every plain_char (codes "at ") refl,
        (home-IsExpr, (Every-of_every plain_char (codes "/") refl, (x_or_y-IsExpr, tt))),
      )
      not_whole x_or_y-IsExpr
