-- ===== src/Textscan/Scanner.antt =====
-- strutil/textscan/scanner.go. The lines that `bufio.Scanner` gives are a list in the state.
use goutil.Prelude.{ℕ, zero, suc, ◌+◌, List, [], ◌∷◌, ◌++◌, Option, none, some, if◌then◌else◌}
use goutil.Text.{Text, trim_space}
use goutil.Strutil.Cut.{is_empty}
use goutil.Textscan.Tokens.{Reason, no_matcher, Token, has_more}
use goutil.Textscan.More.{scan_more}

-- What `Match` of a matcher returns.
pub data Match : Type 0 where
  no_token crash : Match
  token : Token → Match
  wrong : Reason → Match

-- A matcher has the line and the previous token, which it may change.
abbrev pub Matcher : Type 0
Matcher = Text → Option Token → Option Token × Match

pub record ErrScan : Type 0 where
  pub msg : Reason
  pub line : ℕ
  pub text : Text

pub record TextScanner : Type 0 where
  pub input : List Text
  pub matchers : List Matcher
  pub prev_tok : Option Token
  pub line : ℕ
  pub next : Text
  pub tok : Option Token
  pub err : Option ErrScan

-- `NewScanner` on the text of these lines.
abbrev pub new_scanner : List Text → TextScanner
new_scanner lines = record {
  input = lines;
  matchers = [];
  prev_tok = none;
  line = 0;
  next = [];
  tok = none;
  err = none;
}

unfoldable pub add_matchers : List Matcher → TextScanner → TextScanner
add_matchers ms s = record s { matchers = s.matchers ++ ms }

unfoldable pub set_next : Text → TextScanner → TextScanner
set_next text s = record s { next = text }

-- How one line ends: with a token, with an error, with no matcher for it, or with a panic in a
-- matcher.
pub data Step : Type 0 where
  matched failed unmatched : TextScanner → Step
  crashed : Step

unfoldable pub set_err : Reason → Text → TextScanner → TextScanner
set_err why text s = record s { err = some (record { msg = why; line = s.line; text = text }) }

abbrev pub after_more : Option Reason → Token → Text → TextScanner → Step
after_more none t text s = matched (record s { tok = some t })
after_more (some why) t text s = failed (set_err why text s)

-- `ScanMore` on the scanner's input.
unfoldable pub take_more : Token → Text → TextScanner → Step
unfolding set_err
take_more t text s =
    let (t', m, why) = scan_more t s.input in
    after_more why t' text (record s { input = m.rest; line = s.line + m.count })

-- What follows the call of one matcher; `others` is the rest of the loop. A changed previous token
-- is changed in both fields, which share it.
abbrev pub after_match : Match → Text → TextScanner → Step → Step
after_match no_token text s others = others
after_match crash text s others = crashed
after_match (wrong why) text s others = failed (set_err why text s)
after_match (token t) text s others =
    if has_more t then take_more t text s else matched (record s { tok = some t })

-- The loop of `matchToken` over the matchers.
unfoldable pub match_loop : List Matcher → Text → TextScanner → Step
unfolding take_more set_err
match_loop [] text s = unmatched s
match_loop (m ∷ ms) text s =
    let (prev, r) = m text s.tok in
    let s' = record s { prev_tok = prev; tok = prev } in
    after_match r text s' (match_loop ms text s')

-- What `Scan` returns: whether there is a token, and the scanner; or a panic.
pub data Scanned : Type 0 where
  found stopped : TextScanner → Scanned
  panicked : Scanned

-- What follows the matchers; `further` goes on with the next line, or ends at the end of the input.
abbrev pub after_loop : Text → (TextScanner → Scanned) → Step → Scanned
after_loop text further (matched s) = found s
after_loop text further (failed s) = stopped s
after_loop text further crashed = panicked
after_loop text further (unmatched s) =
    let rest = further s in
    if is_empty (trim_space text) then rest else stopped (set_err no_matcher text s)

-- `ScanNext` where there is a line.
abbrev pub next_line : List Text → TextScanner → TextScanner
next_line lines s = record s { input = lines; line = s.line + 1 }

-- `matchToken`, where `lines` is the input of the scanner: a blank line that no matcher takes is
-- passed over.
unfoldable pub match_lines : List Text → Text → TextScanner → Scanned
unfolding match_loop set_err
match_lines [] text s = after_loop text (λ s'. stopped s') (match_loop s.matchers text s)
match_lines (l ∷ lines) text s =
    after_loop text (λ s'. match_lines lines l (next_line lines s')) (match_loop s.matchers text s)

-- `Scan` on an input of these lines.
unfoldable pub scan_lines : List Text → TextScanner → Scanned
unfolding match_lines
scan_lines [] s = stopped (record s { tok = none })
scan_lines (l ∷ lines) s = match_lines lines l (next_line lines s)

unfoldable pub scan : TextScanner → Scanned
unfolding scan_lines
scan s = if is_empty s.next then scan_lines s.input s else match_lines s.input s.next s

-- `Each`, with what the function is given at each call; `out_of_fuel` means that the loop goes on.
pub data Run : Type 0 where
  ended : List (Option Token) → TextScanner → Run
  broken out_of_fuel : List (Option Token) → Run

abbrev pub seen : Option Token → Run → Run
seen t (ended ts s) = ended (t ∷ ts) s
seen t (broken ts) = broken (t ∷ ts)
seen t (out_of_fuel ts) = out_of_fuel (t ∷ ts)

abbrev pub after_scan : (TextScanner → Run) → Scanned → Run
after_scan further (found s) = seen s.tok (further s)
after_scan further (stopped s) = ended [] s
after_scan further panicked = broken []

unfoldable pub each : ℕ → TextScanner → Run
unfolding scan
each zero s = out_of_fuel []
each (suc fuel) s = after_scan (each fuel) (scan s)
