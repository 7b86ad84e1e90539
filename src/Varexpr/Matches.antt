-- ===== src/Varexpr/Matches.antt =====
-- internal/varexpr/varexpr.go: how the matches of the regular expression are replaced in a text.
use goutil.Prelude.{
  ℕ, ◌-◌, ◌≡◌, ◌≢◌, refl, sym, ap, arith, Bool, true, not, [], ◌∷◌, ◌++◌, append_assoc, Option,
  none, some, ◌==◌, length, ◌≤◌,
}
use goutil.Text.{Text, has_prefix, drop_last}
use goutil.Text.Laws.{Every}
use goutil.Varexpr.{
  var_left, var_right, count_left, parse_inner, parse_one, close_brace, match_body, match_expr,
  replace_one, replace_all,
}
use goutil.Varexpr.Expressions.{inner_char}

abbrev pub plain_char : ℕ → Bool
plain_char c = not (c == b'$')

-- What the text of an expression is replaced by: its value, or itself once there was an error.
abbrev pub replaced : (Text → Text) → Option Text → Text → Text × Option Text
replaced getter none s = parse_inner getter s
replaced getter (some e) s = (var_left ++ (s ++ var_right), some e)

close_brace_lem :
    (s rest : Text)
    → Every inner_char s
    → close_brace (s ++ (var_right ++ rest)) ≡ some (s ++ var_right)
unfolding close_brace
close_brace_lem [] rest h = refl
close_brace_lem (c ∷ s) rest (hc, h) = ground (arith, close_brace_lem s rest h)

match_expr_lem :
    (s rest : Text)
    → Every inner_char s
    → s ≢ []
    → match_expr (var_left ++ (s ++ (var_right ++ rest))) ≡ some (var_left ++ (s ++ var_right))
unfolding match_expr match_body has_prefix
match_expr_lem [] rest h ne = absurd (ne refl)
match_expr_lem (c ∷ s) rest (hc, h) ne = ground (arith, close_brace_lem s rest h)

drop_last-concat : (s : Text) (c : ℕ) → drop_last (s ++ c ∷ []) ≡ s
unfolding drop_last
drop_last-concat [] c = refl
drop_last-concat (d ∷ []) c = refl
drop_last-concat (d ∷ e ∷ s) c = ap (◌∷◌ d) (drop_last-concat (e ∷ s) c)

pub replace_one_lem :
    (getter : Text → Text) (err : Option Text) (s : Text)
    → replace_one getter err (var_left ++ (s ++ var_right)) ≡ replaced getter err s
unfolding replace_one parse_one
replace_one_lem getter none s = ap (parse_inner getter) (drop_last-concat s b'}')
replace_one_lem getter (some e) s = refl

-- The rest of a match is passed over.
replace_all_skip :
    (getter : Text → Text) (err : Option Text) (m rest : Text)
    → replace_all getter (length m) err (m ++ rest) ≡ replace_all getter 0 err rest
unfolding replace_all
replace_all_skip getter err [] rest = refl
replace_all_skip getter err (c ∷ m) rest = replace_all_skip getter err m rest

match_expr-plain : (c : ℕ) (s : Text) → plain_char c ≡ true → match_expr (c ∷ s) ≡ none
unfolding match_expr has_prefix
match_expr-plain c s h = ground arith

replace_all_miss :
    (getter : Text → Text) (err : Option Text) (c : ℕ) (s : Text)
    → match_expr (c ∷ s) ≡ none
    → replace_all getter 0 err (c ∷ s)
      ≡ (let (out, err') = replace_all getter 0 err s in (c ∷ out, err'))
unfolding replace_all
replace_all_miss getter err c s h = rw (h, replace_all)

replace_all_hit :
    (getter : Text → Text) (err : Option Text) (c : ℕ) (s : Text) {m : Text}
    → match_expr (c ∷ s) ≡ some m
    → replace_all getter 0 err (c ∷ s) ≡ (
        let (new, err') = replace_one getter err m in
        let (out, err'') = replace_all getter (length m - 1) err' s in (new ++ out, err''))
unfolding replace_all
replace_all_hit getter err c s h = rw (h, replace_all)

pub replace_all-literal :
    (getter : Text → Text) (err : Option Text) (s rest : Text)
    → Every plain_char s
    → replace_all getter 0 err (s ++ rest)
      ≡ (let (out, err') = replace_all getter 0 err rest in (s ++ out, err'))
replace_all-literal getter err [] rest h = refl
replace_all-literal getter err (c ∷ s) rest (hc, h) = rw (
  replace_all_miss getter err c (s ++ rest) (match_expr-plain c (s ++ rest) hc),
  replace_all-literal getter err s rest h,
)

pub replace_all-expr :
    (getter : Text → Text) (err : Option Text) (s rest : Text)
    → Every inner_char s
    → s ≢ []
    → replace_all getter 0 err (var_left ++ (s ++ (var_right ++ rest))) ≡ (
        let (new, err') = replaced getter err s in
        let (out, err'') = replace_all getter 0 err' rest in (new ++ out, err''))
replace_all-expr getter err s rest h ne =
    let e : length (var_left ++ (s ++ var_right)) - 1 ≡ length (b'{' ∷ (s ++ var_right)) =
      omega arith in
    let assoc : s ++ (var_right ++ rest) ≡ (s ++ var_right) ++ rest =
      sym (append_assoc s var_right rest) in
    let err' = (replaced getter err s).1 in
    let skip = replace_all_skip getter err' (b'{' ∷ (s ++ var_right)) rest in
    rw (
      replace_all_hit getter err b'$' _ (match_expr_lem s rest h ne),
      replace_one_lem getter err s,
      e,
      assoc,
      skip,
    )

pub count_left-append : (s rest : Text) → count_left rest ≤ count_left (s ++ rest)
unfolding count_left
count_left-append [] rest = omega arith
count_left-append (c ∷ s) rest = omega (arith, count_left-append s rest)

pub count_left-expr : (rest : Text) → 1 ≤ count_left (var_left ++ rest)
unfolding count_left has_prefix
count_left-expr rest = omega arith
