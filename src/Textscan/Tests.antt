-- ===== src/Textscan/Tests.antt =====
-- The scanner on texts that can be followed by hand.
use goutil.Prelude.{◌≡◌, refl, arith, true, List, [], ◌∷◌, none}
use goutil.Text.{Text, codes}
use goutil.Textscan.Tokens.{new_string_token, tok_value}
use goutil.Textscan.Scanner.{Matcher, token, TextScanner, new_scanner, add_matchers, ended, each}
use goutil.Textscan.Comments.{new_comments_matcher, match_comments}
use goutil.Textscan.KeyValue.{new_key_value_matcher, match_key_value}
use goutil.Textscan.Parser.{new_token_parser, parser_add_matchers, parse_from}
use goutil.Textscan.Lines.{Line, blank, remark, pair, expected, comment_seen, pair_seen}
use goutil.Textscan.Several.{opening}
use goutil.Textscan.Complete.{Completes, each-Completes}
use goutil.Textscan.Unmatched.{parse_from-ended}

abbrev config : List Line
config =
    remark (codes " first")
    ∷ remark (codes " second")
    ∷ blank (codes "  ")
    ∷ pair [] (codes "name") (codes " ") (codes " ") (codes "inhere")
    ∷ pair [] (codes "age") [] [] (codes "28")
    ∷ []

config_seen :
    expected true none config
    ≡ comment_seen (codes "# first")
      ∷ comment_seen (codes "# first")
      ∷ pair_seen (codes "name") (codes "inhere") (codes "# first")
      ∷ pair_seen (codes "age") (codes "28") []
      ∷ []
config_seen = refl

each-Completes_example :
    Completes
      (add_matchers
        (match_comments new_comments_matcher ∷ match_key_value new_key_value_matcher ∷ [])
        (new_scanner (codes "a = \"" ∷ codes "b" ∷ [])))
      (each 3 (
        add_matchers
          (match_comments new_comments_matcher ∷ match_key_value new_key_value_matcher ∷ [])
          (new_scanner (codes "a = \"" ∷ codes "b" ∷ []))))
unfolding add_matchers
each-Completes_example =
    each-Completes new_comments_matcher new_key_value_matcher 3 _ refl refl (omega arith)

-- A matcher of any text.
abbrev any_text : Matcher
any_text text prev = (prev, token (new_string_token tok_value text))

parse_from-ended_example :
    (s : TextScanner) × (parse_from
        (parser_add_matchers (any_text ∷ []) new_token_parser)
        (codes "a" ∷ [])
      ≡ ended [] s)
parse_from-ended_example = parse_from-ended new_token_parser (any_text ∷ []) (codes "a" ∷ [])

-- The opening line of `desc = """a`, with its conditions.
abbrev name : Text
name = codes "esc"

abbrev desc : Text
desc = b'd' ∷ name

desc_line : opening true [] desc [] [] (codes "a") ≡ codes "desc=\"\"\"a"
desc_line = refl
