-- ===== src/Textscan/Progress.antt =====
-- The scanner ends: each token uses up a line, and the line number counts the lines used.
use goutil.Prelude.{
  ℕ, zero, suc, ◌+◌, ◌≤◌, ◌<◌, ◌≡◌, ◌≢◌, refl, sym, ap, ◌∙◌, arith, Bool, List, [], ◌∷◌, Option,
  none, some, length, Bool-cases, inl, inr, if_true,
}
use mathlib.Core.Path.{subst}
use goutil.Text.{Text, trim_space}
use goutil.Strutil.Cut.{is_empty}
use goutil.Textscan.Tokens.{Reason, no_matcher, Token, note, value, comment, string, has_more}
use goutil.Textscan.More.{More, value_lines, comment_lines, scan_more}
use goutil.Textscan.Scanner.{
  Match, no_token, crash, token, wrong, Matcher, TextScanner, Step, matched, failed, unmatched,
  crashed, set_err, take_more, after_more, after_scan, after_match, after_loop, next_line,
  match_loop, Scanned, found, stopped, panicked, match_lines, scan_lines, scan, seen, Run, ended,
  broken, out_of_fuel, each,
}

value_lines-count :
    (mark : Text) (lines : List Text)
    → (value_lines mark lines).count + length (value_lines mark lines).rest ≡ length lines
unfolding value_lines
value_lines-count mark [] = refl
value_lines-count mark (l ∷ lines) = ground (arith, value_lines-count mark lines)

comment_lines-count :
    (ends : Text → Bool) (lines : List Text)
    → (comment_lines ends lines).count + length (comment_lines ends lines).rest ≡ length lines
unfolding comment_lines
comment_lines-count ends [] = refl
comment_lines-count ends (l ∷ lines) = ground (arith, comment_lines-count ends lines)

scan_more-count :
    (t : Token) (lines : List Text)
    → (scan_more t lines).1.count + length (scan_more t lines).1.rest ≡ length lines
unfolding scan_more
scan_more-count (value t) lines = value_lines-count t.mark lines
scan_more-count (note (comment t)) lines = comment_lines-count t.ends lines
scan_more-count (note (string t)) lines = omega arith

-- The second scanner has read on in the input of the first.
pub record Later (s s' : TextScanner) : Type 0 where
  pub counted : s'.line + length s'.input ≡ s.line + length s.input
  pub shorter : length s'.input ≤ length s.input
  pub same_next : s'.next ≡ s.next

-- What a line may do to the scanner.
abbrev pub StepLater : TextScanner → Step → Type 0
StepLater s (matched s') = Later s s' × (s'.err ≡ s.err)
StepLater s (failed s') = Later s s' × (s'.err ≢ none)
StepLater s (unmatched s') =
    (s'.input ≡ s.input) × (s'.line ≡ s.line) × (s'.next ≡ s.next) × (s'.err ≡ s.err)
StepLater s crashed = Unit

set_err-StepLater :
    (why : Reason) (text : Text) (s : TextScanner) → StepLater s (failed (set_err why text s))
unfolding set_err
set_err-StepLater why text s = (ground arith, λ e. cc e)

after_more-StepLater :
    (why : Option Reason) (t : Token) (text : Text) (s : TextScanner) (m : More)
    → m.count + length m.rest ≡ length s.input
    → StepLater s (after_more why t text (record s { input = m.rest; line = s.line + m.count }))
after_more-StepLater none t text s m h = (ground arith, refl)
after_more-StepLater (some why) t text s m h =
    let (k, ne) =
      set_err-StepLater why text (record s { input = m.rest; line = s.line + m.count }) in
    (ground (arith, k), ne)

take_more-StepLater : (t : Token) (text : Text) (s : TextScanner) → StepLater s (take_more t text s)
unfolding take_more
take_more-StepLater t text s =
    let (t', m, why) = scan_more t s.input in
    after_more-StepLater why t' text s m (scan_more-count t s.input)

after_match-StepLater :
    (r : Match) (text : Text) (s : TextScanner) (others : Step)
    → StepLater s others
    → StepLater s (after_match r text s others)
after_match-StepLater no_token text s others h = h
after_match-StepLater crash text s others h = tt
after_match-StepLater (wrong why) text s others h = set_err-StepLater why text s
after_match-StepLater (token t) text s others h = elim (Bool-cases (has_more t)) [
  | inl e ↦ rw e (take_more-StepLater t text s)
  | inr e ↦ rw e (ground arith, refl)
]

-- The previous token is not part of the relation.
StepLater-prev :
    (s : TextScanner) (prev : Option Token) (r : Step)
    → StepLater (record s { prev_tok = prev; tok = prev }) r
    → StepLater s r
StepLater-prev s prev (matched s') (m, e) = (ground (arith, m), e)
StepLater-prev s prev (failed s') (m, e) = (ground (arith, m), e)
StepLater-prev s prev (unmatched s') h = h
StepLater-prev s prev crashed h = tt

match_loop-StepLater :
    (ms : List Matcher) (text : Text) (s : TextScanner) → StepLater s (match_loop ms text s)
unfolding match_loop
match_loop-StepLater [] text s = (refl, refl, refl, refl)
match_loop-StepLater (m ∷ ms) text s =
    let (prev, r) = m text s.tok in
    let s' = record s { prev_tok = prev; tok = prev } in
    StepLater-prev s prev (after_match r text s' (match_loop ms text s'))
      (after_match-StepLater r text s' (match_loop ms text s') (match_loop-StepLater ms text s'))

-- What a call of the scanner may do: it stops without an error only at the end of the input.
abbrev pub ScannedLater : TextScanner → Scanned → Type 0
ScannedLater s (found s') = Later s s' × (s'.err ≡ s.err)
ScannedLater s (stopped s') = Later s s' × (s'.err ≡ none → s'.input ≡ [])
ScannedLater s panicked = Unit

Later-trans : {s t u : TextScanner} → Later s t → Later t u → Later s u
Later-trans h k = ground arith

-- A scanner that differs from `t` in what the relation does not read.
ScannedLater-trans :
    (s t : TextScanner) (r : Scanned)
    → Later s t
    → t.err ≡ s.err
    → ScannedLater t r
    → ScannedLater s r
ScannedLater-trans s t (found u) h e (k, e') = (Later-trans h k, e' ∙ e)
ScannedLater-trans s t (stopped u) h e (k, f) = (Later-trans h k, f)
ScannedLater-trans s t panicked h e k = tt

after_loop-ScannedLater :
    (text : Text) (further : TextScanner → Scanned) (s : TextScanner) (r : Step)
    → StepLater s r
    → ((s' : TextScanner) → StepLater s (unmatched s') → ScannedLater s (further s'))
    → ScannedLater s (after_loop text further r)
after_loop-ScannedLater text further s (matched s') h k = h
after_loop-ScannedLater text further s (failed s') (h, ne) k = (h, λ e. absurd (ne e))
after_loop-ScannedLater text further s crashed h k = tt
after_loop-ScannedLater text further s (unmatched s') h k =
    elim (Bool-cases (is_empty (trim_space text))) [
      | inl e ↦ rw e (k s' h)
      | inr e ↦
          let (m, ne) = set_err-StepLater no_matcher text s' in
          let same : Later s s' = ground (arith, h.0, ap length h.0, h.1, h.2) in
          rw e (Later-trans same m, λ e'. absurd (ne e'))
    ]

match_lines-ScannedLater :
    (lines : List Text) (text : Text) (s : TextScanner)
    → s.input ≡ lines
    → ScannedLater s (match_lines lines text s)
unfolding match_lines
match_lines-ScannedLater [] text s hi =
    after_loop-ScannedLater text (λ s'. stopped s') s (match_loop s.matchers text s)
      (match_loop-StepLater s.matchers text s)
      λ s' h. (ground (arith, h.0, ap length h.0, h.1, h.2), λ _. h.0 ∙ hi)
match_lines-ScannedLater (l ∷ lines) text s hi =
    after_loop-ScannedLater text (λ s'. match_lines lines l (next_line lines s')) s
      (match_loop s.matchers text s) (match_loop-StepLater s.matchers text s)
      λ s' h.
        ScannedLater-trans s (next_line lines s') (match_lines lines l (next_line lines s'))
          (ground (arith, h.0, ap length h.0, ap length hi, h.1, h.2)) h.3
          (match_lines-ScannedLater lines l (next_line lines s') refl)

-- What a scan may do where no text is set to be scanned next.
abbrev pub ScanLater : TextScanner → Scanned → Type 0
ScanLater s (found s') = Later s s' × (length s'.input < length s.input) × (s'.err ≡ s.err)
ScanLater s (stopped s') = Later s s' × (s'.err ≡ none → s'.input ≡ [])
ScanLater s panicked = Unit

ScanLater-next_line :
    (l : Text) (lines : List Text) (s : TextScanner) (r : Scanned)
    → s.input ≡ l ∷ lines
    → ScannedLater (next_line lines s) r
    → ScanLater s r
ScanLater-next_line l lines s (found u) hi (h, e) =
    (ground (arith, ap length hi, h), ground (arith, ap length hi, h), e)
ScanLater-next_line l lines s (stopped u) hi (h, f) = (ground (arith, ap length hi, h), f)
ScanLater-next_line l lines s panicked hi h = tt

scan_lines-ScanLater :
    (lines : List Text) (s : TextScanner) → s.input ≡ lines → ScanLater s (scan_lines lines s)
unfolding scan_lines
scan_lines-ScanLater [] s hi = (ground arith, λ _. hi)
scan_lines-ScanLater (l ∷ lines) s hi =
    ScanLater-next_line l lines s (match_lines lines l (next_line lines s)) hi
      (match_lines-ScannedLater lines l (next_line lines s) refl)

pub scan-ScanLater : (s : TextScanner) → s.next ≡ [] → ScanLater s (scan s)
unfolding scan
scan-ScanLater s e =
    subst (ScanLater s) (sym (if_true _ _ (ap is_empty e))) (scan_lines-ScanLater s.input s refl)

-- How a run may end.
abbrev pub RunEnds : TextScanner → Run → Type 0
RunEnds s (ended ts s') =
    (s'.line + length s'.input ≡ s.line + length s.input)
    × (length ts + length s'.input ≤ length s.input)
    × (s'.err ≡ none → s'.input ≡ [])
RunEnds s (broken ts) = length ts ≤ length s.input
RunEnds s (out_of_fuel ts) = ⊥

seen-RunEnds :
    (s s' : TextScanner) (t : Option Token) (r : Run)
    → Later s s'
    → length s'.input < length s.input
    → RunEnds s' r
    → RunEnds s (seen t r)
seen-RunEnds s s' t (ended ts u) h lt (c, n, f) = (ground (arith, h, c), ground (arith, n), f)
seen-RunEnds s s' t (broken ts) h lt n = ground (arith, n)
seen-RunEnds s s' t (out_of_fuel ts) h lt n = n

after_scan-RunEnds :
    (further : TextScanner → Run) (s : TextScanner) (r : Scanned)
    → ScanLater s r
    → ((s' : TextScanner)
        → s'.next ≡ s.next
        → length s'.input < length s.input
        → RunEnds s' (further s'))
    → RunEnds s (after_scan further r)
after_scan-RunEnds further s (found s') (h, lt, e) k =
    seen-RunEnds s s' s'.tok (further s') h lt (k s' h.same_next lt)
after_scan-RunEnds further s (stopped s') (h, f) k = (h.counted, omega (arith, h.shorter), f)
after_scan-RunEnds further s panicked h k = omega arith

-- `Each` ends if no text is set to be scanned next, whatever the matchers do: a fuel greater than
-- the number of lines left is enough. If no matcher panics, the line number and the lines left make
-- the same sum before and after, there are at most as many tokens as lines used, and without an
-- error the whole input is used.
pub each-RunEnds :
    (fuel : ℕ) (s : TextScanner) → s.next ≡ [] → length s.input < fuel → RunEnds s (each fuel s)
unfolding each
each-RunEnds zero s hn lt = absurd (omega arith)
each-RunEnds (suc fuel) s hn lt =
    after_scan-RunEnds (each fuel) s (scan s) (scan-ScanLater s hn)
      λ s' same lt'. each-RunEnds fuel s' (same ∙ hn) (omega arith)
