-- ===== src/Textscan/LineMatch.antt =====
-- How the two matchers take each kind of line.
use goutil.Prelude.{◌≡◌, refl, ap, Bool, false, [], ◌∷◌, Option, none, some, if_true}
use goutil.Text.{Text, is_space, trim_space, last_or}
use goutil.Text.Laws.{Every}
use goutil.Text.Trim.{trim_space_all, trim_space_ends}
use goutil.Strutil.Cut.{is_empty, join}
use goutil.Textscan.Tokens.{comment, string, Token, note, value, CommentToken, note_value}
use goutil.Textscan.Scanner.{no_token, token}
use goutil.Textscan.Comments.{
  new_comments_matcher, match_comments, comments_detect, merge_prev, comment_of, merged_match,
}
use goutil.Textscan.KeyValue.{KeyValueMatcher, match_key_value}
use goutil.Textscan.Lines.{run_value, run_of, IsOurs}

abbrev pub reader : Bool → Bool → KeyValueMatcher
reader merge single = record {
  separator = [];
  merge_comments = merge;
  inline_comment = false;
  disable_multi_line = single;
  key_check_fn = none;
}

pub match_comments-blank :
    (w : Text) (prev : Option Token)
    → Every is_space w
    → match_comments new_comments_matcher w prev ≡ (prev, no_token)
unfolding match_comments
match_comments-blank w prev h = if_true _ _ (ap is_empty (trim_space_all w h))

pub match_key_value-blank :
    (m : KeyValueMatcher) (w : Text) (prev : Option Token)
    → Every is_space w
    → match_key_value m w prev ≡ (prev, no_token)
unfolding match_key_value
match_key_value-blank m w prev h = if_true _ _ (ap is_empty (trim_space_all w h))

-- A comment that is merged has the value of the one before it.
merge_prev-run :
    (line : Text) (prev : Option Token)
    → IsOurs prev
    → (t : CommentToken) × (merged_match
          (merge_prev (comment_of new_comments_matcher line false) prev)
        ≡ token (note (comment t)))
      × (t.more ≡ false)
      × (note_value (comment t) ≡ run_value (run_of prev) line)
unfolding merge_prev comment_of note_value join
merge_prev-run line none h = (comment_of new_comments_matcher line false, refl, refl, refl)
merge_prev-run line (some (value v)) h =
    (comment_of new_comments_matcher line false, refl, refl, refl)
merge_prev-run line (some (note (string s))) h = absurd h
merge_prev-run line (some (note (comment c))) h = (
  record (comment_of new_comments_matcher line false) { comments = note_value (comment c) ∷ [] },
  refl,
  refl,
  refl,
)

pub match_comments-remark :
    (s : Text) (prev : Option Token)
    → is_space (last_or b'#' s) ≡ false
    → IsOurs prev
    → (t : CommentToken) × (match_comments new_comments_matcher (b'#' ∷ s) prev
        ≡ (prev, token (note (comment t))))
      × (t.more ≡ false)
      × (note_value (comment t) ≡ run_value (run_of prev) (b'#' ∷ s))
unfolding match_comments comments_detect
match_comments-remark s prev h ours =
    let (t, e, more, val) = merge_prev-run (b'#' ∷ s) prev ours in
    let trimmed : trim_space (b'#' ∷ s) ≡ b'#' ∷ s =
      trim_space_ends b'#' s (unfold is_space in refl) h in
    (t, rw trimmed (ap (λ r. (prev, r)) e), more, val)
