-- ===== src/Textscan/Repeat.antt =====
-- A text that is set to be scanned next stays set.
use goutil.Prelude.{ℕ, ◌≡◌, false, List, ◌∷◌, Option, some}
use goutil.Text.{Text}
use goutil.Textscan.Tokens.{Token, has_more}
use goutil.Textscan.Scanner.{token, Matcher, TextScanner}

module _ (m : Matcher) (ms : List Matcher) (c : ℕ) (w : Text) (t : Token)
    (one_line : has_more t ≡ false)
    (takes : (prev : Option Token) → m (c ∷ w) prev ≡ (prev, token t)) where
  abbrev pub waiting : TextScanner → TextScanner
  waiting s = record s { matchers = m ∷ ms; next = c ∷ w }

  abbrev after_token : TextScanner → TextScanner
  after_token s = record s { prev_tok = s.tok; tok = some t }
