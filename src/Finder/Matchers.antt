-- ===== src/Finder/Matchers.antt =====
-- fsutil/finder/matcher.go and matchers.go. `path.Match` and the match of a compiled regular
-- expression are parameters.
use goutil.Prelude.{
  ℕ, Bool, true, false, not, ◌&&◌, ◌||◌, List, [], ◌∷◌, ◌++◌, Option, none, some, ltb, leb, ◌==◌,
  if◌then◌else◌, length, drop,
}
use goutil.Prelude.Int.{ℤ, pos, ltb_ℤ}
use goutil.Text.{
  Text, text_eq, has_prefix, has_suffix, contains_text, last_index_text, drop_last, char_bytes,
}
use goutil.Finder.{Matcher}

-- A loop that returns true at the first item that passes, and false behind the last.
unfoldable pub any_of : {A : Type 0} → (A → Bool) → List A → Bool
any_of p [] = false
any_of p (x ∷ xs) = let rest = any_of p xs in if p x then true else rest

abbrev pub match_file : Matcher
match_file el = not el.is_dir

abbrev pub match_dir : Matcher
match_dir el = el.is_dir

-- `name[0] == '.'`, where the name is not empty.
abbrev pub starts_with_dot : Text → Bool
starts_with_dot [] = false
starts_with_dot (c ∷ s) = c == b'.'

unfoldable pub start_with_dot : Matcher
start_with_dot el = starts_with_dot el.name

-- `path.Ext` of a name without a slash: from the last dot on.
unfoldable pub ext : Text → Text
ext name = elim (last_index_text name (b'.' ∷ [])) [ pos i ↦ drop i name | _ ↦ [] ]

unfoldable pub match_exts : List Text → Matcher
unfolding any_of ext
match_exts exts el = any_of (λ e. text_eq e (ext el.name)) exts

unfoldable pub match_prefixes : List Text → Matcher
unfolding any_of
match_prefixes prefixes el = any_of (has_prefix el.name) prefixes

unfoldable pub match_suffixes : List Text → Matcher
unfolding any_of
match_suffixes suffixes el = any_of (has_suffix el.path) suffixes

unfoldable pub match_paths : List Text → Matcher
unfolding any_of
match_paths sub_paths el = any_of (contains_text el.path) sub_paths

module _ (path_match : Text → Text → Option Bool) where
  -- `fsutil.PathMatch`: an error is no match.
  unfoldable pub path_match_ok : Text → Text → Bool
  path_match_ok pattern s = elim (path_match pattern s) [ none ↦ false | some ok ↦ ok ]

  unfoldable pub match_names : List Text → Matcher
  unfolding any_of path_match_ok
  match_names names el = any_of (λ name. text_eq name el.name || path_match_ok name el.name) names

  unfoldable pub glob_matches : List Text → Matcher
  unfolding any_of path_match_ok
  glob_matches patterns el = any_of (λ pattern. path_match_ok pattern el.name) patterns

abbrev pub last_is : ℕ → Text → Bool
last_is b s = has_suffix s (b ∷ [])

-- `strutil.LikeMatch`
unfoldable pub like_match : Text → Text → Bool
like_match [] s = false
like_match (p ∷ []) s = if ltb (char_bytes p) 2 then false else text_eq (p ∷ []) s
like_match (p ∷ q ∷ pattern) s =
    if p == b'%'
    then if ltb 0 (length pattern) && last_is b'%' (q ∷ pattern)
      then contains_text s (drop_last (q ∷ pattern))
      else has_suffix s (q ∷ pattern)
    else if last_is b'%' (q ∷ pattern)
    then has_prefix s (drop_last (p ∷ q ∷ pattern))
    else text_eq (p ∷ q ∷ pattern) s

unfoldable pub name_likes : List Text → Matcher
unfolding any_of like_match
name_likes patterns el = any_of (λ pattern. like_match pattern el.name) patterns

-- `timex.InRange`; `none` is the zero time.
unfoldable pub in_range : ℤ → Option ℤ → Option ℤ → Bool
in_range dst none none = false
in_range dst none (some end) = ltb_ℤ dst end
in_range dst (some start) none = ltb_ℤ start dst
in_range dst (some start) (some end) = ltb_ℤ start dst && ltb_ℤ dst end

unfoldable pub match_mod_time : Option ℤ → Option ℤ → Matcher
unfolding in_range
match_mod_time start end el =
    if el.is_dir
    then false
    else elim el.info [ none ↦ false | some fi ↦ in_range fi.mod_time start end ]

-- `mathutil.InUintRange`: a maximum of 0 is none.
unfoldable pub in_uint_range : ℕ → ℕ → ℕ → Bool
in_uint_range val min max = if max == 0 then leb min val else leb min val && leb val max

unfoldable pub size_range : ℕ → ℕ → Matcher
unfolding in_uint_range
size_range min max el =
    if el.is_dir
    then false
    else elim el.info [ none ↦ false | some fi ↦ in_uint_range fi.size min max ]

-- `MultiMatcher`
pub record MultiMatcher : Type 0 where
  pub before : Option Matcher
  pub matchers : List Matcher

unfoldable pub add : List Matcher → MultiMatcher → MultiMatcher
add fls mf = record mf { matchers = mf.matchers ++ fls }

unfoldable pub apply_all : List Matcher → Matcher
apply_all [] el = true
apply_all (fl ∷ fls) el = let rest = apply_all fls el in if not (fl el) then false else rest

unfoldable pub apply_multi : MultiMatcher → Matcher
unfolding apply_all
apply_multi mf el = elim mf.before [
  | none ↦ apply_all mf.matchers el
  | some before ↦ if not (before el) then false else apply_all mf.matchers el
]

unfoldable pub new_dir_matchers : List Matcher → MultiMatcher
new_dir_matchers fls = record { before = some match_dir; matchers = fls }

unfoldable pub new_file_matchers : List Matcher → MultiMatcher
new_file_matchers fls = record { before = some match_file; matchers = fls }
