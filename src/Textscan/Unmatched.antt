-- ===== src/Textscan/Unmatched.antt =====
-- Scanning with no matcher.
use goutil.Prelude.{
  ◌≡◌, refl, ap, ◌∙◌, List, [], ◌∷◌, length, Bool-cases, inl, inr, if_true, if_false,
}
use goutil.Text.{Text, trim_space}
use goutil.Strutil.Cut.{is_empty}
use goutil.Textscan.Tokens.{no_matcher}
use goutil.Textscan.Scanner.{
  Matcher, TextScanner, new_scanner, unmatched, set_err, match_loop, Scanned, stopped, after_loop,
  next_line, match_lines, scan_lines, scan, ended, after_scan, each,
}
use goutil.Textscan.Parser.{TokenParser, parser_add_matchers, parse_from}

-- No line gives a token.
abbrev Stops : Scanned → Type 0
Stops r = (u : TextScanner) × (r ≡ stopped u)

after_loop-Stops :
    (text : Text) (further : TextScanner → Scanned) (s : TextScanner)
    → Stops (further s)
    → Stops (after_loop text further (unmatched s))
after_loop-Stops text further s (u, e) = elim (Bool-cases (is_empty (trim_space text))) [
  | inl e' ↦ (u, if_true _ _ e' ∙ e)
  | inr e' ↦ (set_err no_matcher text s, if_false _ _ e')
]

match_lines-Stops :
    (lines : List Text) (text : Text) (s : TextScanner)
    → s.matchers ≡ []
    → Stops (match_lines lines text s)
unfolding match_lines match_loop
match_lines-Stops [] text s e =
    let (u, e') = after_loop-Stops text (λ s'. stopped s') s (s, refl) in
    (u, ap (λ ms. after_loop text (λ s'. stopped s') (match_loop ms text s)) e ∙ e')
match_lines-Stops (l ∷ lines) text s e =
    let further = λ (s' : TextScanner). match_lines lines l (next_line lines s') in
    let (u, e') =
      after_loop-Stops text further s (match_lines-Stops lines l (next_line lines s) e) in
    (u, ap (λ ms. after_loop text further (match_loop ms text s)) e ∙ e')

scan_lines-Stops :
    (lines : List Text) (s : TextScanner) → s.matchers ≡ [] → Stops (scan_lines lines s)
unfolding scan_lines
scan_lines-Stops [] s e = (_, refl)
scan_lines-Stops (l ∷ lines) s e = match_lines-Stops lines l (next_line lines s) e

-- `ParseFrom` ends without a call of its handler, whatever matchers the parser has been given and
-- whatever the text is.
pub parse_from-ended :
    (p : TokenParser) (ms : List Matcher) (lines : List Text)
    → (s : TextScanner) × (parse_from (parser_add_matchers ms p) lines ≡ ended [] s)
unfolding parse_from scan
parse_from-ended p ms lines =
    let (u, e) = scan_lines-Stops lines (new_scanner lines) refl in
    (u, ap (after_scan (each (length lines))) e)
