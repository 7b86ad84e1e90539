-- ===== src/Textscan/Complete.antt =====
-- A scanner with safe matchers comes to an end without a panic; the parser never calls its handler.
use mathlib.Core.Path.{subst}
use goutil.Prelude.{
  ℕ, zero, suc, ◌+◌, ◌<◌, ◌≡◌, refl, sym, List, [], ◌∷◌, Option, none, some, length, Bool-cases,
  inl, inr, if_true, if_false,
}
use goutil.Text.{Text, trim_space}
use goutil.Strutil.Cut.{is_empty}
use goutil.Textscan.Tokens.{Token, Reason, has_more}
use goutil.Textscan.More.{scan_more}
use goutil.Textscan.Scanner.{
  Match, no_token, crash, token, wrong, Matcher, TextScanner, Step, matched, failed, unmatched,
  crashed, after_more, take_more, after_match, match_loop, Scanned, found, stopped, panicked,
  after_loop, next_line, match_lines, scan_lines, scan, Run, ended, broken, out_of_fuel, seen,
  after_scan, each,
}
use goutil.Textscan.Comments.{CommentsMatcher, match_comments}
use goutil.Textscan.KeyValue.{KeyValueMatcher, match_key_value}
use goutil.Textscan.Safety.{IsSafe, match_comments-IsSafe, match_key_value-IsSafe}
use goutil.Textscan.Progress.{RunEnds, each-RunEnds}

abbrev pub AllSafe : List Matcher → Type 0
AllSafe [] = Unit
AllSafe (m ∷ ms) = ((text : Text) (prev : Option Token) → IsSafe (m text prev).1) × AllSafe ms

-- A step that is no panic and keeps the matchers.
abbrev StepSafe : List Matcher → Step → Type 0
StepSafe ms (matched s) = s.matchers ≡ ms
StepSafe ms (failed s) = Unit
StepSafe ms (unmatched s) = s.matchers ≡ ms
StepSafe ms crashed = ⊥

after_more-StepSafe :
    (why : Option Reason) (t : Token) (text : Text) (s : TextScanner)
    → StepSafe s.matchers (after_more why t text s)
after_more-StepSafe none t text s = refl
after_more-StepSafe (some why) t text s = tt

after_match-StepSafe :
    (r : Match) (text : Text) (s : TextScanner) (others : Step)
    → IsSafe r
    → StepSafe s.matchers others
    → StepSafe s.matchers (after_match r text s others)
unfolding take_more
after_match-StepSafe no_token text s others h k = k
after_match-StepSafe crash text s others h k = h
after_match-StepSafe (wrong why) text s others h k = tt
after_match-StepSafe (token t) text s others h k = elim (Bool-cases (has_more t)) [
  | inl e ↦ rw e (after_more-StepSafe (scan_more t s.input).2 (scan_more t s.input).0 text _)
  | inr e ↦ rw e refl
]

match_loop-StepSafe :
    (ms : List Matcher) (text : Text) (s : TextScanner)
    → AllSafe ms
    → StepSafe s.matchers (match_loop ms text s)
unfolding match_loop
match_loop-StepSafe [] text s h = refl
match_loop-StepSafe (m ∷ ms) text s (h, hs) =
    let (prev, r) = m text s.tok in
    let s' = record s { prev_tok = prev; tok = prev } in
    after_match-StepSafe r text s' (match_loop ms text s') (h text s.tok)
      (match_loop-StepSafe ms text s' hs)

abbrev ScanSafe : List Matcher → Scanned → Type 0
ScanSafe ms (found s) = s.matchers ≡ ms
ScanSafe ms (stopped s) = Unit
ScanSafe ms panicked = ⊥

after_loop-ScanSafe :
    (text : Text) (further : TextScanner → Scanned) (ms : List Matcher) (r : Step)
    → StepSafe ms r
    → ((s : TextScanner) → s.matchers ≡ ms → ScanSafe ms (further s))
    → ScanSafe ms (after_loop text further r)
after_loop-ScanSafe text further ms (matched s) h k = h
after_loop-ScanSafe text further ms (failed s) h k = tt
after_loop-ScanSafe text further ms crashed h k = h
after_loop-ScanSafe text further ms (unmatched s) h k =
    elim (Bool-cases (is_empty (trim_space text))) [ inl e ↦ rw e (k s h) | inr e ↦ rw e tt ]

its_loop :
    (text : Text) (s : TextScanner) (ms : List Matcher)
    → s.matchers ≡ ms
    → AllSafe ms
    → StepSafe ms (match_loop s.matchers text s)
its_loop text s ms e h =
    subst (λ k. StepSafe k (match_loop s.matchers text s)) e
      (match_loop-StepSafe s.matchers text s (subst AllSafe (sym e) h))

match_lines-ScanSafe :
    (lines : List Text) (text : Text) (s : TextScanner) (ms : List Matcher)
    → s.matchers ≡ ms
    → AllSafe ms
    → ScanSafe ms (match_lines lines text s)
unfolding match_lines
match_lines-ScanSafe [] text s ms e h =
    after_loop-ScanSafe text (λ s'. stopped s') ms (match_loop s.matchers text s)
      (its_loop text s ms e h) (λ s' e'. tt)
match_lines-ScanSafe (l ∷ lines) text s ms e h =
    after_loop-ScanSafe text (λ s'. match_lines lines l (next_line lines s')) ms
      (match_loop s.matchers text s) (its_loop text s ms e h)
      (λ s' e'. match_lines-ScanSafe lines l (next_line lines s') ms e' h)

scan_lines-ScanSafe :
    (lines : List Text) (s : TextScanner) (ms : List Matcher)
    → s.matchers ≡ ms
    → AllSafe ms
    → ScanSafe ms (scan_lines lines s)
unfolding scan_lines
scan_lines-ScanSafe [] s ms e h = tt
scan_lines-ScanSafe (l ∷ lines) s ms e h = match_lines-ScanSafe lines l (next_line lines s) ms e h

scan-ScanSafe :
    (s : TextScanner) (ms : List Matcher) → s.matchers ≡ ms → AllSafe ms → ScanSafe ms (scan s)
unfolding scan
scan-ScanSafe s ms e h = elim (Bool-cases (is_empty s.next)) [
  | inl e' ↦ subst (ScanSafe ms) (sym (if_true _ _ e')) (scan_lines-ScanSafe s.input s ms e h)
  | inr e' ↦
      subst (ScanSafe ms) (sym (if_false _ _ e')) (match_lines-ScanSafe s.input s.next s ms e h)
]

abbrev NotBroken : Run → Type 0
NotBroken (broken ts) = ⊥
NotBroken (ended ts s) = Unit
NotBroken (out_of_fuel ts) = Unit

seen-NotBroken : (t : Option Token) (r : Run) → NotBroken r → NotBroken (seen t r)
seen-NotBroken t (ended ts s) h = tt
seen-NotBroken t (broken ts) h = h
seen-NotBroken t (out_of_fuel ts) h = tt

after_scan-NotBroken :
    (further : TextScanner → Run) (ms : List Matcher) (r : Scanned)
    → ScanSafe ms r
    → ((s : TextScanner) → s.matchers ≡ ms → NotBroken (further s))
    → NotBroken (after_scan further r)
after_scan-NotBroken further ms (found s) h k = seen-NotBroken s.tok (further s) (k s h)
after_scan-NotBroken further ms (stopped s) h k = tt
after_scan-NotBroken further ms panicked h k = h

each-NotBroken :
    (fuel : ℕ) (s : TextScanner) (ms : List Matcher)
    → s.matchers ≡ ms
    → AllSafe ms
    → NotBroken (each fuel s)
unfolding each
each-NotBroken zero s ms e h = tt
each-NotBroken (suc fuel) s ms e h =
    after_scan-NotBroken (each fuel) ms (scan s) (scan-ScanSafe s ms e h)
      λ s' e'. each-NotBroken fuel s' ms e' h

-- A run that ended, with the input all used unless there was an error.
abbrev pub Completes : TextScanner → Run → Type 0
Completes s (ended ts s') =
    (s'.line + length s'.input ≡ s.line + length s.input) × (s'.err ≡ none → s'.input ≡ [])
Completes s (broken ts) = ⊥
Completes s (out_of_fuel ts) = ⊥

Completes_lem : (s : TextScanner) (r : Run) → RunEnds s r → NotBroken r → Completes s r
Completes_lem s (ended ts s') (e, n, f) h = (e, f)
Completes_lem s (broken ts) e h = h
Completes_lem s (out_of_fuel ts) e h = e

-- With a comments matcher and a key-value matcher, whatever their settings and functions, `Each`
-- does not panic on any text and ends, if no text is set to be scanned next: a fuel greater than the
-- number of lines is enough, the line number and the lines left make the same sum as before, and
-- without an error the whole input is used.
pub each-Completes :
    (cm : CommentsMatcher) (m : KeyValueMatcher) (fuel : ℕ) (s : TextScanner)
    → s.matchers ≡ match_comments cm ∷ match_key_value m ∷ []
    → s.next ≡ []
    → length s.input < fuel
    → Completes s (each fuel s)
each-Completes cm m fuel s e hn lt =
    let safe : AllSafe (match_comments cm ∷ match_key_value m ∷ []) =
      (match_comments-IsSafe cm, (match_key_value-IsSafe m, tt)) in
    Completes_lem s (each fuel s) (each-RunEnds fuel s hn lt)
      (each-NotBroken fuel s (match_comments cm ∷ match_key_value m ∷ []) e safe)
