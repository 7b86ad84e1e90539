-- ===== src/Textscan/Tokens.antt =====
-- strutil/textscan/tokens.go, and the tokens of kvparse.go. A token that a matcher of the package
-- makes is a value, a comment or a string; its methods are functions by clauses.
use goutil.Prelude.{
  ℕ, Bool, true, false, not, List, [], ◌∷◌, ◌++◌, Option, none, some, ◌==◌, if◌then◌else◌,
}
use goutil.Prelude.Outcome.{Outcome, done, panics}
use goutil.Text.{Text, codes}
use goutil.Strutil.Cut.{join}

-- A kind is a byte, since further kinds can be registered.
abbrev pub Kind : Type 0
Kind = ℕ

abbrev pub tok_invalid : Kind
tok_invalid = 0

abbrev pub tok_key : Kind
tok_key = 1

abbrev pub tok_value : Kind
tok_value = 2

abbrev pub tok_comments : Kind
tok_comments = 3

-- The global table of kinds.
abbrev pub Kinds : Type 0
Kinds = List (Kind × Text)

abbrev pub builtin_kinds : Kinds
builtin_kinds =
    (tok_invalid, codes "Invalid")
    ∷ (tok_key, codes "Key")
    ∷ (tok_value, codes "Value")
    ∷ (tok_comments, codes "Comments")
    ∷ []

unfoldable pub has_kind : Kinds → Kind → Bool
has_kind [] k = false
has_kind ((j, name) ∷ kinds) k = let rest = has_kind kinds k in if j == k then true else rest

unfoldable pub kind_string : Kinds → Kind → Text
kind_string [] k = codes "Invalid"
kind_string ((j, name) ∷ kinds) k = let rest = kind_string kinds k in if j == k then name else rest

-- A kind that is registered already panics.
unfoldable pub add_kind : Kinds → Kind → Text → Outcome Kinds
unfolding has_kind
add_kind kinds k name = if has_kind kinds k then panics else done ((k, name) ∷ kinds)

-- `TextScanner.AddKind`
unfoldable pub register_kind : Kinds → Kind → Text → Outcome Kinds
unfolding has_kind add_kind
register_kind kinds k name = if not (has_kind kinds k) then add_kind kinds k name else done kinds

-- What can be wrong with a line or a token.
pub data Reason : Type 0 where
  empty_key invalid_contents value_not_end comments_not_end no_matcher : Reason
  cannot_merge : Reason
  key_refused : Text → Reason

pub record StringToken : Type 0 where
  pub kind : Kind
  pub value : Text

-- `ends` is the test of its matcher for the last line of a comment, `MatchEnd`.
pub record CommentToken : Type 0 where
  pub value : Text
  pub more : Bool
  pub comments : List Text
  pub ends : Text → Bool

-- A token that can be the comment of a value: one that is no value itself.
pub data Note : Type 0 where
  comment : CommentToken → Note
  string : StringToken → Note

pub record ValueToken : Type 0 where
  pub value : Text
  pub more : Bool
  pub mark : Text
  pub key : Text
  pub values : List Text
  pub comment : Option Note

pub data Token : Type 0 where
  note : Note → Token
  value : ValueToken → Token

abbrev pub new_string_token : Kind → Text → Token
new_string_token k val = note (string (record { kind = k; value = val }))

abbrev pub newline : Text
newline = b'\n' ∷ []

-- `strings.Join(lines, "\n")`, and the value of the token where there are no lines.
abbrev pub join_or : Text → List Text → Text
join_or val [] = val
join_or val (l ∷ ls) = join (l ∷ ls) newline

unfoldable pub note_kind : Note → Kind
note_kind (comment t) = tok_comments
note_kind (string t) = t.kind

unfoldable pub note_value : Note → Text
note_value (comment t) = join_or t.value t.comments
note_value (string t) = t.value

unfoldable pub token_kind : Token → Kind
unfolding note_kind
token_kind (note n) = note_kind n
token_kind (value t) = tok_value

unfoldable pub token_value : Token → Text
unfolding note_value
token_value (note n) = note_value n
token_value (value t) = join_or t.value t.values

unfoldable pub is_valid : Token → Bool
unfolding token_kind
is_valid t = not (token_kind t == tok_invalid)

abbrev pub text_of_note : Option Note → Text
text_of_note none = []
text_of_note (some n) = note_value n

-- `ValueToken.Comment`
unfoldable pub comment_text : ValueToken → Text
unfolding note_value
comment_text t = text_of_note t.comment

-- `ValueToken.HasComment`
unfoldable pub has_comment : ValueToken → Bool
has_comment t = elim t.comment [ none ↦ false | some n ↦ true ]

unfoldable pub has_more : Token → Bool
has_more (note (comment t)) = t.more
has_more (note (string t)) = false
has_more (value t) = t.more

-- `IsKindToken`
unfoldable pub is_kind_token : Kind → Option Token → Bool
unfolding token_kind
is_kind_token k none = false
is_kind_token k (some t) = token_kind t == k

-- `MergeSame` of a note: the note, and what is wrong. A comment takes the value of another token of
-- its kind as its last line.
unfoldable pub merge_same : Note → Note → Note × Option Reason
unfolding note_kind note_value
merge_same (string t) other = (string t, some cannot_merge)
merge_same (comment t) other =
    if note_kind other == tok_comments
    then (comment (record t { comments = t.comments ++ note_value other ∷ [] }), none)
    else (comment t, some cannot_merge)
