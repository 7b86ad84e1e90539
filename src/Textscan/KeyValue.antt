-- ===== src/Textscan/KeyValue.antt =====
-- strutil/textscan/kvparse.go: the matcher of `KEY=VALUE` lines.
use goutil.Prelude.{
  Bool, true, false, ◌&&◌, ◌||◌, List, [], ◌∷◌, Option, none, some, ◌==◌, ltb, if◌then◌else◌, drop,
}
use goutil.Prelude.Int.{pos}
use goutil.Prelude.Outcome.{Outcome, done, panics, ◌>>=◌}
use goutil.Text.{Text, codes, trim_space, has_suffix, drop_last, byte_len}
use goutil.Strutil.Cut.{is_empty, split_n_trimmed, split_inline_comment}
use goutil.Strutil.Convert.{unquote}
use goutil.Strutil.Check.{has_one_prefix}
use goutil.Textscan.Tokens.{
  Reason, empty_key, CommentToken, ValueToken, Note, comment, Token, note, value, is_kind_token,
  tok_comments, merge_same,
}
use goutil.Textscan.More.{mark_s, mark_d, mark_q, comments_detect_end}
use goutil.Textscan.Scanner.{Match, no_token, crash, token, wrong, Matcher}

pub record KeyValueMatcher : Type 0 where
  pub separator : Text
  pub merge_comments : Bool
  pub inline_comment : Bool
  pub disable_multi_line : Bool
  pub key_check_fn : Option (Text → Option Reason)

abbrev pub new_key_value_matcher : KeyValueMatcher
new_key_value_matcher = record {
  separator = [];
  merge_comments = false;
  inline_comment = false;
  disable_multi_line = false;
  key_check_fn = none;
}

-- `NewCommentToken`; it has no further lines, so that its test for the last one is not called.
unfoldable pub new_comment_token : Text → CommentToken
new_comment_token val = record {
  value = val;
  more = false;
  comments = [];
  ends = comments_detect_end;
}

-- A comment behind the value becomes the value's comment, or is merged into the one it has.
unfoldable pub put_comment : Text → Option Note → Option Note
unfolding merge_same new_comment_token
put_comment [] old = old
put_comment (c ∷ s) none = some (comment (new_comment_token (c ∷ s)))
put_comment (c ∷ s) (some n) = some (merge_same n (comment (new_comment_token (c ∷ s)))).0

-- `val[0]` is a quote.
abbrev pub clear_quotes : Text → Outcome Text
clear_quotes [] = panics
clear_quotes (c ∷ s) = done (if c == b'"' || c == b'\'' then unquote (c ∷ s) else c ∷ s)

unfoldable pub inline_comments_and_unquote :
    KeyValueMatcher → Option Note → Text → Outcome (Option Note × Text)
unfolding put_comment unquote
inline_comments_and_unquote m old val =
    let (val', behind) = if m.inline_comment then split_inline_comment val true else (val, []) in
    do v ← clear_quotes val'; done (put_comment behind old, v)

-- The token of a value in one line.
abbrev pub one_line : Text → Option Note × Text → ValueToken
one_line key (old, val) = record {
  value = val;
  more = false;
  mark = [];
  key = key;
  values = [];
  comment = old;
}

-- The token of a value that goes on in the next line.
abbrev pub first_of_lines : Text → Option Note → Text → Text → ValueToken
first_of_lines key old mark val = record {
  value = val;
  more = true;
  mark = mark;
  key = key;
  values = val ∷ [];
  comment = old;
}

abbrev pub opening_mark : Text → Text
opening_mark [] = mark_s
opening_mark (c ∷ s) = if c == b'"' then mark_d else mark_s

-- The value of a line, from `vln := len(val)` on.
unfoldable pub match_value : KeyValueMatcher → Text → Option Note → Text → Outcome ValueToken
unfolding inline_comments_and_unquote has_one_prefix
match_value m key old val =
    if m.disable_multi_line
    then if ltb 1 (byte_len val)
      then inline_comments_and_unquote m old val >>= (λ r. done (one_line key r))
      else done (one_line key (old, val))
    else if ltb 0 (byte_len val) && has_suffix val mark_q
    then done (first_of_lines key old mark_q (drop_last val))
    else if ltb 2 (byte_len val)
    then if has_one_prefix val (mark_d ∷ mark_s ∷ [])
      then done (first_of_lines key old (opening_mark val) (drop 3 val))
      else inline_comments_and_unquote m old val >>= (λ r. done (one_line key r))
    else done (one_line key (old, val))

abbrev pub separator_or_default : Text → Text
separator_or_default [] = codes "="
separator_or_default (c ∷ s) = c ∷ s

-- The previous token if it is a comment and comments are merged.
unfoldable pub kept_comment : Bool → Option Token → Option Note
unfolding is_kind_token
kept_comment merge none = none
kept_comment merge (some (value t)) = none
kept_comment merge (some (note n)) =
    if merge && is_kind_token tok_comments (some (note n)) then some n else none

-- The previous token after the match: a comment that was kept is shared with the value's token, and
-- so is what is merged into it.
abbrev pub shared_prev : Option Note → Option Note → Option Token → Option Token
shared_prev none new prev = prev
shared_prev (some n) none prev = prev
shared_prev (some n) (some n') prev = some (note n')

abbrev pub value_match : Option Note → Option Token → Outcome ValueToken → Option Token × Match
value_match old prev panics = (prev, crash)
value_match old prev (done t) = (shared_prev old t.comment prev, token (value t))

abbrev pub key_error : Option (Text → Option Reason) → Text → Option Reason
key_error f [] = some empty_key
key_error none (c ∷ s) = none
key_error (some check) (c ∷ s) = check (c ∷ s)

-- What follows the tests on the key.
abbrev pub after_key :
    KeyValueMatcher → Option Token → Text → Text → Option Reason → Option Token × Match
after_key m prev key val (some why) = (prev, wrong why)
after_key m prev key val none =
    let old = kept_comment m.merge_comments prev in value_match old prev (match_value m key old val)

-- A line that has no separator is none of this matcher.
abbrev pub match_nodes : KeyValueMatcher → Option Token → List Text → Option Token × Match
match_nodes m prev (key ∷ val ∷ []) = after_key m prev key val (key_error m.key_check_fn key)
match_nodes m prev _ = (prev, no_token)

unfoldable pub match_key_value : KeyValueMatcher → Matcher
unfolding match_value kept_comment split_n_trimmed
match_key_value m text prev =
    if is_empty (trim_space text)
    then (prev, no_token)
    else match_nodes m prev
        (split_n_trimmed (trim_space text) (separator_or_default m.separator) (pos 2))
