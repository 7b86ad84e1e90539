-- ===== src/Textscan/Comments.antt =====
-- strutil/textscan/kvparse.go: the matcher of comments.
use goutil.Prelude.{
  ℕ, Bool, true, false, not, [], ◌∷◌, Option, none, some, ◌==◌, ltb, ◌+◌, ◌/◌, if◌then◌else◌,
}
use goutil.Text.{Text, trim_space, has_suffix}
use goutil.Strutil.Cut.{is_empty}
use goutil.Textscan.Tokens.{
  Reason, invalid_contents, CommentToken, Note, comment, Token, note, value, tok_comments,
  merge_same, is_kind_token,
}
use goutil.Textscan.More.{comment_end, comments_detect_end}
use goutil.Textscan.Scanner.{Match, no_token, token, wrong, Matcher}

-- What `MatchFn` returns: whether the line is a comment, whether it goes on, and an error.
pub data Detected : Type 0 where
  found : Bool → Detected
  missed : Detected
  refused : Reason → Detected

pub record CommentsMatcher : Type 0 where
  pub inline_chars : Text
  pub match_fn : Option (Text → Detected)
  pub detect_end : Option (Text → Bool)

abbrev pub new_comments_matcher : CommentsMatcher
new_comments_matcher = record { inline_chars = []; match_fn = none; detect_end = none }

unfoldable pub is_one_of : ℕ → Text → Bool
is_one_of c [] = false
is_one_of c (prefix ∷ cs) = let rest = is_one_of c cs in if c == prefix then true else rest

-- A line that begins with a slash.
abbrev pub detect_slash : Text → Detected
detect_slash [] = refused invalid_contents
detect_slash (c ∷ s) =
    if c == b'/'
    then found false
    else if c == b'*'
    then found (not (has_suffix (b'/' ∷ c ∷ s) comment_end))
    else missed

-- The first byte of a character in UTF-8.
abbrev pub first_byte : ℕ → ℕ
first_byte c =
    if ltb c 0x80
    then c
    else if ltb c 0x800
    then 0xc0 + c / 0x40
    else if ltb c 0x10000
    then 0xe0 + c / 0x1000
    else 0xf0 + c / 0x40000

-- `CommentsDetect`; the inline characters are bytes.
unfoldable pub comments_detect : Text → Text → Detected
unfolding is_one_of
comments_detect [] inline_chars = missed
comments_detect (c ∷ s) inline_chars =
    if is_one_of (first_byte c) inline_chars
    then found false
    else if c == b'/'
    then detect_slash s
    else missed

abbrev pub chars_or_default : Text → Text
chars_or_default [] = b'#' ∷ []
chars_or_default (c ∷ s) = c ∷ s

unfoldable pub match_fn_of : CommentsMatcher → Text → Detected
unfolding comments_detect
match_fn_of m text = elim m.match_fn [
  | none ↦ comments_detect text (chars_or_default m.inline_chars)
  | some f ↦ f text
]

-- `MatchEnd`
unfoldable pub match_end : CommentsMatcher → Text → Bool
unfolding comments_detect_end
match_end m line = elim m.detect_end [ none ↦ comments_detect_end line | some f ↦ f line ]

-- A comment of this line alone or of the lines that begin here.
unfoldable pub comment_of : CommentsMatcher → Text → Bool → CommentToken
comment_of m text more = record {
  value = text;
  more = more;
  comments = if more then text ∷ [] else [];
  ends = match_end m;
}

-- A previous token that is a comment is merged into the new one.
unfoldable pub merge_prev : CommentToken → Option Token → Note × Option Reason
unfolding merge_same is_kind_token
merge_prev t none = (comment t, none)
merge_prev t (some (value v)) = (comment t, none)
merge_prev t (some (note n)) =
    if is_kind_token tok_comments (some (note n))
    then merge_same (comment t) n
    else (comment t, none)

abbrev pub merged_match : Note × Option Reason → Match
merged_match (n, none) = token (note n)
merged_match (n, some why) = wrong why

abbrev pub detected_match : CommentsMatcher → Text → Option Token → Detected → Match
detected_match m text prev missed = no_token
detected_match m text prev (refused why) = wrong why
detected_match m text prev (found more) = merged_match (merge_prev (comment_of m text more) prev)

unfoldable pub match_comments : CommentsMatcher → Matcher
unfolding match_fn_of comment_of merge_prev
match_comments m text prev =
    if is_empty (trim_space text)
    then (prev, no_token)
    else (prev, detected_match m (trim_space text) prev (match_fn_of m (trim_space text)))
