-- ===== src/Textscan/Parser.antt =====
-- strutil/textscan/parser.go. What the handler does is not the parser's: the model gives the tokens
-- that it is called with.
use goutil.Prelude.{suc, List, [], length}
use goutil.Text.{Text}
use goutil.Textscan.Scanner.{Matcher, TextScanner, new_scanner, add_matchers, Run, each}

pub record TokenParser : Type 0 where
  pub ts : TextScanner

unfoldable pub new_token_parser : TokenParser
new_token_parser = record { ts = new_scanner [] }

unfoldable pub parser_add_matchers : List Matcher → TokenParser → TokenParser
unfolding add_matchers
parser_add_matchers ms p = record p { ts = add_matchers ms p.ts }

-- `ParseFrom` on these lines: a scanner of its own, asked once more than there are lines.
unfoldable pub parse_from : TokenParser → List Text → Run
unfolding each
parse_from p lines = each (suc (length lines)) (new_scanner lines)
