-- ===== src/Textscan/Several.antt =====
-- Values of several lines between three quotes are scanned.
use goutil.Prelude.{
  ℕ, ◌+◌, ◌≡◌, refl, ap, ◌∙◌, arith, Bool, true, false, List, [], ◌∷◌, ◌++◌, Option, none, some,
  ◌==◌, length, if◌then◌else◌,
}
use goutil.Prelude.Outcome.{done}
use goutil.Text.{Text, is_space, has_prefix, last_or, byte_len}
use goutil.Text.Laws.{Every}
use goutil.Textscan.Tokens.{Note, Token, value, ValueToken, value_not_end, has_more}
use goutil.Textscan.More.{More, value_lines, scan_more}
use goutil.Textscan.Scanner.{token, Step, match_loop, take_more, after_more, found, stopped, scan}
use goutil.Textscan.Comments.{new_comments_matcher, match_comments}
use goutil.Textscan.KeyValue.{
  match_key_value, match_value, first_of_lines, value_match, kept_comment,
}
use goutil.Textscan.Steps.{
  match_loop_more, match_loop_miss, match_lines-matched, match_lines-failed,
}
use goutil.Textscan.LineMatch.{reader}
use goutil.Textscan.PairMatch.{
  has_suffix-last, match_comments-pair, match_key_value-nodes, kept_comment-kept,
}
use goutil.Textscan.QuotedLines.{
  mark_of, AllInside, NoSpaceFirst, value_lines-closed, value_lines-open,
}
use goutil.Textscan.LineRead.{standing, readers}
use goutil.Textscan.Lines.{line_text, pair, IsKey, IsOurs, TrimmedText}

match_value-opening :
    (merge double : Bool) (key : Text) (old : Option Note) (s : Text)
    → (last_or b'"' (mark_of double ++ s) == b'\\') ≡ false
    → match_value (reader merge false) key old (mark_of double ++ s)
      ≡ done (first_of_lines key old (mark_of double) s)
unfolding match_value byte_len has_prefix last_or
match_value-opening merge true key old s h =
    ground (arith, has_suffix-last b'"' (b'"' ∷ b'"' ∷ s) b'\\' h)
match_value-opening merge false key old s h =
    ground (arith, has_suffix-last b'\'' (b'\'' ∷ b'\'' ∷ s) b'\\' h)

-- `KEY = """first`
abbrev pub opening : Bool → Text → Text → Text → Text → Text → Text
opening double w key w' w'' s = line_text (pair w key w' w'' (mark_of double ++ s))

abbrev pub first_token : Bool → Bool → Text → Text → Option Token → ValueToken
first_token merge double key s tok = first_of_lines key (kept_comment merge tok) (mark_of double) s

module _ (merge double : Bool) (w : Text) (c : ℕ) (k w' w'' s : Text) (n : ℕ)
    (prev tok : Option Token) (ours : IsOurs tok) (hw : Every is_space w) (hk : IsKey (c ∷ k))
    (hw' : Every is_space w') (hw'' : Every is_space w'')
    (trimmed : TrimmedText (mark_of double ++ s))
    (plain : (last_or b'"' (mark_of double ++ s) == b'\\') ≡ false) where
  match_key_value-opening :
      match_key_value (reader merge false) (opening double w (c ∷ k) w' w'' s) tok
      ≡ (tok, token (value (first_token merge double (c ∷ k) s tok)))
  match_key_value-opening =
      match_key_value-nodes merge false w c k w' w'' (mark_of double ++ s) tok hw hk hw' hw''
        trimmed
      ∙ ap (value_match (kept_comment merge tok) tok)
          (match_value-opening merge double (c ∷ k) (kept_comment merge tok) s plain)
      ∙ ap (λ p. (p, token (value (first_token merge double (c ∷ k) s tok))))
          (kept_comment-kept merge tok ours).1

  match_loop-opening :
      (lines : List Text)
      → match_loop
          (readers merge false)
          (opening double w (c ∷ k) w' w'' s)
          (standing merge false lines prev tok (n + 1))
        ≡ take_more
            (value (first_token merge double (c ∷ k) s tok))
            (opening double w (c ∷ k) w' w'' s)
            (standing merge false lines tok tok (n + 1))
  match_loop-opening lines =
      match_loop_miss (match_comments new_comments_matcher)
        (match_key_value (reader merge false) ∷ []) (opening double w (c ∷ k) w' w'' s)
        (standing merge false lines prev tok (n + 1)) tok
        (match_comments-pair w c k w' w'' (mark_of double ++ s) tok hw hk hw'' trimmed)
      ∙ match_loop_more (match_key_value (reader merge false)) []
          (opening double w (c ∷ k) w' w'' s) (standing merge false lines tok tok (n + 1)) tok
          (value (first_token merge double (c ∷ k) s tok)) match_key_value-opening
          (unfold has_more in refl)

  abbrev after_lines : More → Step
  after_lines m =
      after_more (if m.ended then none else some value_not_end)
        (value (record (first_token merge double (c ∷ k) s tok) { values = s ∷ m.read }))
        (opening double w (c ∷ k) w' w'' s)
        (record (standing merge false [] tok tok (n + 1)) {
          input = m.rest;
          line = n + 1 + m.count;
        })

  -- A value that is opened by three quotes, double or single, behind the equals sign and closed by
  -- the same three quotes at the end of a later line, where no line between them ends with the
  -- quotes when it is trimmed: the scan gives its key, the comment before it if comments are merged,
  -- and as its lines the rest of the first line, the lines between, and the last line without the
  -- quotes. The scanner goes on behind the last line, with its number.
  pub scan-several :
      (lines : List Text) (body : Text) (rest : List Text)
      → AllInside double lines
      → NoSpaceFirst body
      → scan (
          standing merge false
            (opening double w (c ∷ k) w' w'' s ∷ (lines ++ (body ++ mark_of double) ∷ rest))
            prev
            tok
            n)
        ≡ found (
            standing merge false rest tok
              (some (
                value (record (first_token merge double (c ∷ k) s tok) {
                  values = s ∷ (lines ++ body ∷ []);
                })))
              (n + 1 + (length lines + 1)))
  unfolding scan take_more scan_more value_lines
  scan-several lines body rest hs h =
      let lines' = lines ++ (body ++ mark_of double) ∷ rest in
      match_lines-matched lines' (opening double w (c ∷ k) w' w'' s)
        (standing merge false lines' prev tok (n + 1)) _
        (match_loop-opening lines'
          ∙ ap after_lines (value_lines-closed double lines body rest hs h))

  -- Where no later line ends with the quotes, the scan reads all the input and stops with the error
  -- that the value does not end, at the number of the last line and with the text of the first; the
  -- token is still the one before.
  pub scan-several_open :
      (lines : List Text)
      → AllInside double lines
      → scan (standing merge false (opening double w (c ∷ k) w' w'' s ∷ lines) prev tok n)
        ≡ stopped (record (standing merge false [] tok tok (n + 1 + length lines)) {
          err = some (record {
            msg = value_not_end;
            line = n + 1 + length lines;
            text = opening double w (c ∷ k) w' w'' s;
          });
        })
  unfolding scan take_more scan_more value_lines
  scan-several_open lines hs =
      match_lines-failed lines (opening double w (c ∷ k) w' w'' s)
        (standing merge false lines prev tok (n + 1)) _
        (match_loop-opening lines ∙ ap after_lines (value_lines-open double lines hs))
