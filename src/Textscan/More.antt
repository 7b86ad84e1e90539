-- ===== src/Textscan/More.antt =====
-- strutil/textscan/kvparse.go: values and comments of several lines. The rest of the input is the
-- list of lines that `bufio.Scanner` has still to give.
use goutil.Prelude.{
  ℕ, ◌+◌, ◌-◌, Bool, true, false, ◌||◌, List, [], ◌∷◌, ◌++◌, Option, none, some, if◌then◌else◌,
  length, take,
}
use goutil.Text.{Text, codes, trim_space, text_eq, has_suffix, drop_last}
use goutil.Textscan.Tokens.{
  Reason, value_not_end, comments_not_end, comment, string, Token, note, value,
}

abbrev pub mark_s : Text
mark_s = codes "'''"

abbrev pub mark_d : Text
mark_d = codes "\"\"\""

abbrev pub mark_q : Text
mark_q = codes "\\"

abbrev pub comment_end : Text
comment_end = codes "*/"

-- The text without its last three characters, `str[:ln-3]`, which end it.
abbrev pub without_mark : Text → Text
without_mark str = take (length str - 3) str

-- `KeyValueMatcher.DetectEnd`: whether the line ends the value, and its part of the value.
unfoldable pub detect_end : Text → Text → Bool × Text
detect_end mark text =
    let str = trim_space text in
    if text_eq mark mark_s || text_eq mark mark_d
    then (if has_suffix str mark then (true, without_mark str) else (false, text))
    else if text_eq mark mark_q
    then (if has_suffix str mark_q then (false, drop_last str) else (true, str))
    else (false, [])

-- `CommentsDetectEnd`
unfoldable pub comments_detect_end : Text → Bool
comments_detect_end line = has_suffix line comment_end

-- What reading further lines gives: the lines read for the token, how many there were, what is left
-- of the input, and whether the input ended first.
pub record More : Type 0 where
  pub read : List Text
  pub count : ℕ
  pub rest : List Text
  pub ended : Bool

abbrev pub more_line : Text → More → More
more_line l m = record m { read = l ∷ m.read; count = m.count + 1 }

-- What `DetectEnd` decides about a line; `further` is the rest of the loop.
abbrev pub after_detect : Text → List Text → More → Bool × Text → More
after_detect line lines further (ok, val) =
    let last : More = record { read = val ∷ []; count = 1; rest = lines; ended = true } in
    if ok then last else more_line line further

-- The loop of `ValueToken.ScanMore`
unfoldable pub value_lines : Text → List Text → More
unfolding detect_end
value_lines mark [] = record { read = []; count = 0; rest = []; ended = false }
value_lines mark (line ∷ lines) =
    after_detect line lines (value_lines mark lines) (detect_end mark line)

-- The loop of `CommentToken.ScanMore`: the last line belongs to the comment.
unfoldable pub comment_lines : (Text → Bool) → List Text → More
comment_lines ends [] = record { read = []; count = 0; rest = []; ended = false }
comment_lines ends (line ∷ lines) =
    let last : More = record { read = line ∷ []; count = 1; rest = lines; ended = true } in
    let further = more_line line (comment_lines ends lines) in if ends line then last else further

-- `ScanMore` of a token: the token with its lines, what was read, and what is wrong. The lines read
-- stay in the token when the input ends.
unfoldable pub scan_more : Token → List Text → Token × More × Option Reason
unfolding value_lines comment_lines
scan_more (value t) lines =
    let m = value_lines t.mark lines in
    (
      value (record t { values = t.values ++ m.read }),
      m,
      if m.ended then none else some value_not_end,
    )
scan_more (note (comment t)) lines =
    let m = comment_lines t.ends lines in
    (
      note (comment (record t { comments = t.comments ++ m.read })),
      m,
      if m.ended then none else some comments_not_end,
    )
scan_more (note (string t)) lines =
    (note (string t), record { read = []; count = 0; rest = lines; ended = true }, none)
