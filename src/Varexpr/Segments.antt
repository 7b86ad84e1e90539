-- ===== src/Varexpr/Segments.antt =====
-- A text that is made of literals and expressions is expanded piece by piece.
use goutil.Prelude.{
  ◌≡◌, ◌≢◌, refl, sym, arith, Bool, false, if_false, ◌∙◌, ◌&&◌, List, [], ◌∷◌, ◌++◌, append-nil,
  Option, none, some, ◌==◌, ==_iff, Bool-cases, inl, inr,
}
use goutil.Text.{Text, has_prefix, has_suffix}
use goutil.Strutil.Cut.{is_empty}
use goutil.Text.Laws.{Every}
use goutil.Varexpr.{var_left, var_right, count_left, parse_inner, replace_all, parse}
use goutil.Varexpr.Matches.{
  plain_char, replaced, replace_all-literal, replace_all-expr, replace_one_lem, count_left-append,
  count_left-expr,
}
use goutil.Varexpr.Expressions.{
  Expr, expr_text, expr_value, inner_char, IsExpr, parse_inner-expr_value,
}

pub data Segment : Type 0 where
  literal : Text → Segment
  expr : Expr → Segment

-- A literal has no `$`.
abbrev pub IsSegment : Segment → Type 0
IsSegment (literal s) = Every plain_char s
IsSegment (expr e) = IsExpr e

abbrev pub render : List Segment → Text
render [] = []
render (literal s ∷ segs) = s ++ render segs
render (expr e ∷ segs) = var_left ++ (expr_text e ++ (var_right ++ render segs))

abbrev pub AllSegments : List Segment → Type 0
AllSegments [] = Unit
AllSegments (seg ∷ segs) = IsSegment seg × AllSegments segs

-- What an expression becomes: its value, or itself once there was an error.
abbrev pub expand_expr : (Text → Text) → Option Text → Expr → Text × Option Text
expand_expr getter none e = expr_value getter e
expand_expr getter (some err) e = (var_left ++ (expr_text e ++ var_right), some err)

abbrev pub expand : (Text → Text) → Option Text → List Segment → Text × Option Text
expand getter err [] = ([], err)
expand getter err (literal s ∷ segs) = let (out, err') = expand getter err segs in (s ++ out, err')
expand getter err (expr e ∷ segs) =
    let (new, err') = expand_expr getter err e in
    let (out, err'') = expand getter err' segs in (new ++ out, err'')

replaced-expr_text :
    (getter : Text → Text) (err : Option Text) (e : Expr)
    → IsExpr e
    → replaced getter err (expr_text e) ≡ expand_expr getter err e
replaced-expr_text getter none e h = parse_inner-expr_value getter e h.0
replaced-expr_text getter (some err) e h = refl

ne_nil : (s : Text) → is_empty s ≡ false → s ≢ []
ne_nil [] h e = cc h
ne_nil (c ∷ s) h e = cc e

replace_all-expand :
    (getter : Text → Text) (err : Option Text) (segs : List Segment)
    → AllSegments segs
    → replace_all getter 0 err (render segs) ≡ expand getter err segs
replace_all-expand getter err [] h = unfold replace_all in refl
replace_all-expand getter err (literal s ∷ segs) (hs, h) =
    rw (replace_all-literal getter err s (render segs) hs, replace_all-expand getter err segs h)
replace_all-expand getter err (expr e ∷ segs) ((hp, hi, ne), h) = rw (
  replace_all-expr getter err (expr_text e) (render segs) hi (ne_nil (expr_text e) ne),
  replaced-expr_text getter err e (hp, hi, ne),
  replace_all-expand getter (expand_expr getter err e).1 segs h,
)

-- Without `${` there are only literals, which stay.
expand-literals :
    (getter : Text → Text) (segs : List Segment)
    → count_left (render segs) ≡ 0
    → expand getter none segs ≡ (render segs, none)
expand-literals getter [] h = refl
expand-literals getter (literal s ∷ segs) h =
    rw (expand-literals getter segs (omega (arith, count_left-append s (render segs))))
expand-literals getter (expr e ∷ segs) h =
    absurd (omega (arith, count_left-expr (expr_text e ++ (var_right ++ render segs))))

-- The text begins with `${`, ends with `}` and has no other `${`.
abbrev pub is_whole : Text → Bool
is_whole val = (count_left val == 1) && has_prefix val var_left && has_suffix val var_right

parse-segments :
    (getter : Text → Text) (segs : List Segment)
    → AllSegments segs
    → is_whole (render segs) ≡ false
    → parse getter (render segs) ≡ expand getter none segs
unfolding parse
parse-segments getter segs h whole = elim (Bool-cases (count_left (render segs) == 0)) [
  | inl zero_times ↦ rw zero_times (sym (expand-literals getter segs ((==_iff _ 0).0 zero_times)))
  | inr more ↦ if_false _ _ more ∙ if_false _ _ whole ∙ replace_all-expand getter none segs h
]

parse-inner :
    (getter : Text → Text) (s : Text)
    → Every inner_char s
    → s ≢ []
    → parse getter (var_left ++ (s ++ var_right)) ≡ parse_inner getter s
unfolding parse
parse-inner getter s h ne =
    let whole = replace_one_lem getter none s in
    let matched : replace_all getter 0 none (var_left ++ (s ++ var_right))
        ≡ ((parse_inner getter s).0 ++ [], (parse_inner getter s).1) =
      unfold replace_all in replace_all-expr getter none s [] h ne in
    ground
      (arith, count_left-expr (s ++ var_right), whole, matched, append-nil (parse_inner getter s).0)

-- A text of literals and expressions is expanded piece by piece, unless it begins with `${`, ends with
-- `}` and has no other `${`: literals stay, an expression becomes the value of its name and, where
-- that is empty, its default or its error, and from the first error on the expressions stay as they
-- are and that error is returned. A text that is one expression becomes what the expression stands
-- for. A literal has no `$`; an expression is a name, a name with a default, or a name with `?` and
-- a message, with spaces around each part; it is not empty and has no `}` and no newline, the name
-- has no bar, and the default does not begin with `?`.
pub parse-expand :
    (getter : Text → Text) (segs : List Segment) (e : Expr)
    → AllSegments segs
    → is_whole (render segs) ≡ false
    → IsExpr e
    → (parse getter (render segs) ≡ expand getter none segs)
      × (parse getter (render (expr e ∷ [])) ≡ expr_value getter e)
parse-expand getter segs e h whole (hp, hi, ne) = (
  parse-segments getter segs h whole,
  parse-inner getter (expr_text e) hi (ne_nil (expr_text e) ne)
      ∙ parse_inner-expr_value getter e hp,
)
