-- ===== src/Varexpr.antt =====
-- internal/varexpr/varexpr.go with the default options: expressions `${name}`, `${name | default}`
-- and `${name | ?error}`. The environment, `os.Getenv`, is the parameter `getter`. A custom `ParseFn`
-- or `Regexp` is not modelled. A result is the new text with the message of the error, if any.
mod Expressions
mod Matches
pub mod Segments
mod Tests
use goutil.Prelude.{
  ℕ, zero, suc, ◌+◌, ◌-◌, Bool, true, false, ◌&&◌, List, [], ◌∷◌, ◌++◌, Option, none, some, ltb,
  ◌==◌, if◌then◌else◌, length, drop,
}
use goutil.Text.{Text, codes, is_space, trim_space, has_prefix, has_suffix, cut_char, drop_last}

abbrev pub var_left : Text
var_left = b'$' ∷ b'{' ∷ []

abbrev pub var_right : Text
var_right = b'}' ∷ []

-- `strings.Count(val, "${")`: two occurrences cannot overlap.
unfoldable pub count_left : Text → ℕ
count_left [] = 0
count_left (c ∷ s) = (if has_prefix (c ∷ s) var_left then 1 else 0) + count_left s

-- `if val == "" && def != ""`, where the value is empty.
pub use_default : Text → Text → Text × Option Text
use_default name [] = ([], none)
use_default name (d ∷ def) =
    if d == b'?'
    then (
      [],
      some (if ltb 1 (length (d ∷ def)) then def else codes "value is required for var: " ++ name),
    )
    else (d ∷ def, none)

pub value_or : Text → Text → Text → Text × Option Text
value_or name [] def = use_default name def
value_or name (c ∷ val) def = (c ∷ val, none)

abbrev pub trim_default : Option Text → Text
trim_default none = []
trim_default (some right) = trim_space right

-- `parseOne` on the text between `${` and `}`.
pub parse_inner : (Text → Text) → Text → Text × Option Text
parse_inner getter inner =
    let (left, right) = cut_char b'|' inner in
    value_or (trim_space left) (getter (trim_space left)) (trim_default right)

unfoldable pub parse_one : (Text → Text) → Text → Text × Option Text
unfolding parse_inner value_or use_default
parse_one getter e_var = parse_inner getter (drop_last (drop 2 e_var))

abbrev pub cons_match : ℕ → Option Text → Option Text
cons_match c none = none
cons_match c (some m) = some (c ∷ m)

-- `?}` of the expression `\${.+?}`: up to the first `}`, and no newline before it.
pub close_brace : Text → Option Text
close_brace [] = none
close_brace (c ∷ s) =
    let rest = cons_match c (close_brace s) in
    if c == b'}' then some (c ∷ []) else if c == b'\n' then none else rest

-- `.+`: one character at least, which may itself be a `}`.
pub match_body : Text → Option Text
match_body [] = none
match_body (c ∷ s) = if c == b'\n' then none else cons_match c (close_brace s)

-- The match of `\${.+?}` at the start of the text.
pub match_expr : Text → Option Text
match_expr s =
    if has_prefix s var_left
    then elim (match_body (drop 2 s)) [ none ↦ none | some m ↦ some (var_left ++ m) ]
    else none

-- The function given to `ReplaceAllStringFunc`: it goes on without a change after an error.
pub replace_one : (Text → Text) → Option Text → Text → Text × Option Text
replace_one getter (some e) m = (m, some e)
replace_one getter none m = parse_one getter m

-- `ReplaceAllStringFunc`: matches from left to right that do not overlap. `skip` is how much of the
-- last match is still to be passed over.
pub replace_all : (Text → Text) → ℕ → Option Text → Text → Text × Option Text
replace_all getter skip err [] = ([], err)
replace_all getter (suc skip) err (c ∷ s) = replace_all getter skip err s
replace_all getter zero err (c ∷ s) = elim (match_expr (c ∷ s)) [
  | none ↦ let (out, err') = replace_all getter 0 err s in (c ∷ out, err')
  | some m ↦
      let (new, err') = replace_one getter err m in
      let (out, err'') = replace_all getter (length m - 1) err' s in (new ++ out, err'')
]

unfoldable pub parse : (Text → Text) → Text → Text × Option Text
unfolding count_left parse_one close_brace match_body match_expr replace_one replace_all
parse getter val =
    let times = count_left val in
    if times == 0
    then (val, none)
    else if (times == 1) && has_prefix val var_left && has_suffix val var_right
    then parse_one getter val
    else replace_all getter 0 none val

unfoldable pub safe_parse : (Text → Text) → Text → Text
unfolding parse
safe_parse getter val = (parse getter val).0
