-- ===== src/Textscan/Steps.antt =====
-- One step of the scanner, by what the matchers return.
use goutil.Prelude.{◌≡◌, ap, ◌∙◌, true, false, List, [], ◌∷◌, Option, some, if_true, if_false}
use goutil.Text.{Text}
use goutil.Textscan.Tokens.{Token, has_more}
use goutil.Textscan.Scanner.{
  Match, token, no_token, Matcher, TextScanner, Step, matched, failed, take_more, match_loop,
  after_match, after_loop, next_line, found, stopped, match_lines,
}

abbrev pub match_with : List Matcher → Text → TextScanner → Option Token × Match → Step
match_with ms text s (prev, r) =
    let s' = record s { prev_tok = prev; tok = prev } in
    after_match r text s' (match_loop ms text s')

-- A token of one line.
pub match_loop_hit :
    (m : Matcher) (ms : List Matcher) (text : Text) (s : TextScanner) (prev : Option Token)
    (t : Token)
    → m text s.tok ≡ (prev, token t)
    → has_more t ≡ false
    → match_loop (m ∷ ms) text s ≡ matched (record s { prev_tok = prev; tok = some t })
unfolding match_loop
match_loop_hit m ms text s prev t e h = ap (match_with ms text s) e ∙ if_false _ _ h

-- A token that goes on in the next lines.
pub match_loop_more :
    (m : Matcher) (ms : List Matcher) (text : Text) (s : TextScanner) (prev : Option Token)
    (t : Token)
    → m text s.tok ≡ (prev, token t)
    → has_more t ≡ true
    → match_loop (m ∷ ms) text s ≡ take_more t text (record s { prev_tok = prev; tok = prev })
unfolding match_loop
match_loop_more m ms text s prev t e h = ap (match_with ms text s) e ∙ if_true _ _ h

pub match_loop_miss :
    (m : Matcher) (ms : List Matcher) (text : Text) (s : TextScanner) (prev : Option Token)
    → m text s.tok ≡ (prev, no_token)
    → match_loop (m ∷ ms) text s ≡ match_loop ms text (record s { prev_tok = prev; tok = prev })
unfolding match_loop
match_loop_miss m ms text s prev e = ap (match_with ms text s) e

pub match_lines-matched :
    (lines : List Text) (text : Text) (s u : TextScanner)
    → match_loop s.matchers text s ≡ matched u
    → match_lines lines text s ≡ found u
unfolding match_lines
match_lines-matched [] text s u e = ap (after_loop text (λ s'. stopped s')) e
match_lines-matched (l ∷ lines) text s u e =
    ap (after_loop text (λ s'. match_lines lines l (next_line lines s'))) e

pub match_lines-failed :
    (lines : List Text) (text : Text) (s u : TextScanner)
    → match_loop s.matchers text s ≡ failed u
    → match_lines lines text s ≡ stopped u
unfolding match_lines
match_lines-failed [] text s u e = ap (after_loop text (λ s'. stopped s')) e
match_lines-failed (l ∷ lines) text s u e =
    ap (after_loop text (λ s'. match_lines lines l (next_line lines s'))) e
