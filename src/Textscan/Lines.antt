-- ===== src/Textscan/Lines.antt =====
-- The lines of a configuration in the `KEY=VALUE` format, and what a reader of the tokens sees.
use goutil.Prelude.{
  ℕ, ◌≡◌, Bool, false, List, [], ◌∷◌, ◌++◌, Option, none, some, ◌==◌, if◌then◌else◌,
}
use goutil.Text.{Text, is_space, last_or}
use goutil.Text.Laws.{Every}
use goutil.Text.Splits.{differs}
pub use goutil.Text.Trim.{IsTrimmed, TrimmedText}
use goutil.Textscan.Tokens.{
  Token, comment, string, note, value, note_value, token_value, comment_text,
}

-- A line of spaces; a comment behind `#`; a key and a value with spaces around them.
pub data Line : Type 0 where
  blank : Text → Line
  remark : Text → Line
  pair : Text → Text → Text → Text → Text → Line

abbrev pub equals : ℕ
equals = b'='

abbrev pub line_text : Line → Text
line_text (blank w) = w
line_text (remark s) = b'#' ∷ s
line_text (pair w key w' w'' val) = w ++ (key ++ (w' ++ (equals ∷ (w'' ++ val))))

-- A key is not empty, begins like no comment and has no equals sign.
abbrev pub IsKey : Text → Type 0
IsKey [] = ⊥
IsKey (c ∷ s) =
    IsTrimmed c s × Every (differs equals) (c ∷ s) × ((c == b'#') ≡ false) × ((c == b'/') ≡ false)

-- A value may be empty; it begins with no quote and does not end in a backslash.
abbrev pub IsValue : Text → Type 0
IsValue [] = Unit
IsValue (c ∷ s) =
    IsTrimmed c s
    × ((c == b'"') ≡ false)
    × ((c == b'\'') ≡ false)
    × ((last_or c s == b'\\') ≡ false)

pub IsValue-TrimmedText : (val : Text) → IsValue val → TrimmedText val
IsValue-TrimmedText [] h = tt
IsValue-TrimmedText (c ∷ s) h = h.0

abbrev pub IsLine : Line → Type 0
IsLine (blank w) = Every is_space w
IsLine (remark s) = is_space (last_or b'#' s) ≡ false
IsLine (pair w key w' w'' val) =
    Every is_space w × IsKey key × Every is_space w' × Every is_space w'' × IsValue val

abbrev pub AllLines : List Line → Type 0
AllLines [] = Unit
AllLines (l ∷ ls) = IsLine l × AllLines ls

abbrev pub line_texts : List Line → List Text
line_texts [] = []
line_texts (l ∷ ls) = line_text l ∷ line_texts ls

-- What a token tells: the value of a comment; the key, the value and the comment of a value.
pub data Seen : Type 0 where
  comment_seen : Text → Seen
  pair_seen : Text → Text → Text → Seen

abbrev pub view : Token → Seen
view (note n) = comment_seen (note_value n)
view (value t) = pair_seen t.key (token_value (value t)) (comment_text t)

abbrev pub views : List (Option Token) → List Seen
views [] = []
views (none ∷ ts) = views ts
views (some t ∷ ts) = view t ∷ views ts

-- The comment line that a run of comments keeps.
abbrev pub run_value : Option Text → Text → Text
run_value none line = line
run_value (some first) line = first

abbrev pub kept : Bool → Option Text → Text
kept merge none = []
kept merge (some first) = if merge then first else []

-- What is to be seen, where `run` is the value of the last token if that is a comment. A blank line
-- ends no run of comments.
abbrev pub expected : Bool → Option Text → List Line → List Seen
expected merge run [] = []
expected merge run (blank w ∷ ls) = expected merge run ls
expected merge run (remark s ∷ ls) =
    let first = run_value run (b'#' ∷ s) in comment_seen first ∷ expected merge (some first) ls
expected merge run (pair w key w' w'' val ∷ ls) =
    pair_seen key val (kept merge run) ∷ expected merge none ls

-- The value of the previous token, if that is a comment.
abbrev pub run_of : Option Token → Option Text
run_of (some (note n)) = some (note_value n)
run_of _ = none

-- A previous token that the two matchers make.
abbrev pub IsOurs : Option Token → Type 0
IsOurs none = Unit
IsOurs (some (value t)) = Unit
IsOurs (some (note (comment t))) = Unit
IsOurs (some (note (string t))) = ⊥
