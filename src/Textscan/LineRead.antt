-- ===== src/Textscan/LineRead.antt =====
-- A text of `KEY=VALUE` lines is read back.
use goutil.Prelude.{ℕ, ◌≡◌, Bool, List, [], ◌∷◌, Option, none}
use goutil.Text.{Text}
use goutil.Textscan.Tokens.{Token}
use goutil.Textscan.Scanner.{Matcher, TextScanner, Run, ended, broken, out_of_fuel}
use goutil.Textscan.Comments.{new_comments_matcher, match_comments}
use goutil.Textscan.KeyValue.{match_key_value}
use goutil.Textscan.LineMatch.{reader}
use goutil.Textscan.Lines.{views, Seen}

module _ (merge single : Bool) where
  abbrev pub readers : List Matcher
  readers = match_comments new_comments_matcher ∷ match_key_value (reader merge single) ∷ []

  -- A scanner with the two matchers, at line `n`.
  abbrev pub standing : List Text → Option Token → Option Token → ℕ → TextScanner
  standing lines prev tok n = record {
    input = lines;
    matchers = readers;
    prev_tok = prev;
    line = n;
    next = [];
    tok = tok;
    err = none;
  }

  -- What a run has read: it ended with no error, and its tokens are seen as these.
  abbrev pub Reads : List Seen → Run → Type 0
  Reads vs (ended ts s) = (views ts ≡ vs) × (s.err ≡ none)
  Reads vs (broken ts) = ⊥
  Reads vs (out_of_fuel ts) = ⊥
