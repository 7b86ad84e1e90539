-- ===== src/Textscan/Safety.antt =====
-- The matchers of the package do not panic.
use mathlib.Core.Path.{subst}
use goutil.Text.TrimFirst.{NoneOrBegins, trim_right_by_cons, trim_space-NoneOrBegins}
use goutil.Prelude.{
  ◌≤◌, ℕ, zero, suc, ◌+◌, ◌≡◌, sym, ap, ◌∙◌, arith, Bool, true, false, List, [], ◌∷◌, Option, none,
  some, if◌then◌else◌, take, map, if_true, if_false, Bool-cases, inl, inr,
}
use goutil.Prelude.Int.{pos, negsuc, ℤ}
use goutil.Prelude.Outcome.{Outcome, done, panics, ◌>>=◌}
use goutil.Text.{Text, codes, is_space, trim_space, index_text, index_from, has_prefix, byte_len}
use goutil.Strutil.Cut.{
  is_empty, is_blank, inline_at, comment_at, split_n_trimmed, split_inline_comment,
}
use goutil.Text.SplitN.{split_text_n}
use goutil.Textscan.Comments.{
  CommentsMatcher, match_comments, detected_match, Detected, found, missed, refused, merge_prev,
  comment_of, merged_match, match_fn_of,
}
use goutil.Textscan.Tokens.{Note, Token, Reason, ValueToken}
use goutil.Textscan.Scanner.{Match, no_token, crash, token, wrong}
use goutil.Textscan.KeyValue.{
  KeyValueMatcher, inline_comments_and_unquote, match_value, match_nodes, match_key_value,
  clear_quotes, one_line, value_match, after_key, kept_comment, key_error, separator_or_default,
}

-- An index that is not 0.
abbrev Behind : ℤ → Type 0
Behind (pos i) = 1 ≤ i
Behind (negsuc i) = Unit

index_from-Behind : (i : ℕ) (sep s : Text) → 1 ≤ i → Behind (index_from i sep s)
unfolding index_from
index_from-Behind i sep [] h = elim (Bool-cases (has_prefix [] sep)) [
  | inl e ↦ rw e h
  | inr e ↦ rw e tt
]
index_from-Behind i sep (c ∷ s) h = elim (Bool-cases (has_prefix (c ∷ s) sep)) [
  | inl e ↦ rw e h
  | inr e ↦ rw e (index_from-Behind (i + 1) sep s (omega arith))
]

space-blank : (c : ℕ) → is_space c ≡ false → is_blank c ≡ false
unfolding is_space
space-blank c h = ground arith

-- A separator that begins with a blank is not found at the start of a text that begins with none.
index_text-Behind :
    (c : ℕ) (s sep : Text) → is_blank c ≡ false → Behind (index_text (c ∷ s) (b' ' ∷ sep))
unfolding index_text index_from has_prefix
index_text-Behind c s sep h =
    let e : has_prefix (c ∷ s) (b' ' ∷ sep) ≡ false = rw h in
    rw h (index_from-Behind 1 (b' ' ∷ sep) s (omega arith))

abbrev NotEmpty : Text → Type 0
NotEmpty [] = ⊥
NotEmpty (c ∷ s) = Unit {0}

comment_at-NotEmpty :
    (c : ℕ) (s : Text) (skip i : ℕ)
    → is_blank c ≡ false
    → 1 ≤ i
    → NotEmpty (comment_at (c ∷ s) skip i).0
comment_at-NotEmpty c s skip zero h le = absurd (omega arith)
comment_at-NotEmpty c s skip (suc i) h le =
    let (t, e) = trim_right_by_cons is_blank c (take i s) h in subst NotEmpty (sym e) tt

inline_at-NotEmpty :
    (c : ℕ) (s : Text) (other : Text × Text) (r : ℤ)
    → is_blank c ≡ false
    → Behind r
    → NotEmpty other.0
    → NotEmpty (inline_at (c ∷ s) 1 other r).0
inline_at-NotEmpty c s other (pos i) h b o = comment_at-NotEmpty c s 1 i h b
inline_at-NotEmpty c s other (negsuc i) h b o = o

split_inline_comment-NotEmpty :
    (c : ℕ) (s : Text) → is_blank c ≡ false → NotEmpty (split_inline_comment (c ∷ s) true).0
unfolding split_inline_comment
split_inline_comment-NotEmpty c s h =
    inline_at-NotEmpty c s _ (index_text (c ∷ s) (codes " #")) h
      (index_text-Behind c s (codes "#") h)
      (inline_at-NotEmpty c s _ (index_text (c ∷ s) (codes " //")) h
        (index_text-Behind c s (codes "//") h) tt)

data IsDone {A : Type 0} : Outcome A → Type 0 where
  is_done : {a : A} → IsDone (done a)

clear_quotes-IsDone :
    {A B : Type 0} (f : Text → A) (g : A → B) (val : Text)
    → NotEmpty val
    → IsDone (clear_quotes val >>= (λ v. done (f v)) >>= λ r. done (g r))
clear_quotes-IsDone f g [] h = absurd h
clear_quotes-IsDone f g (c ∷ s) h = is_done

without_comment-NotEmpty :
    (b : Bool) (c : ℕ) (s : Text)
    → is_space c ≡ false
    → NotEmpty (if b then split_inline_comment (c ∷ s) true else (c ∷ s, [])).0
without_comment-NotEmpty true c s h = split_inline_comment-NotEmpty c s (space-blank c h)
without_comment-NotEmpty false c s h = tt

inline_comments_and_unquote-IsDone :
    {A : Type 0} (m : KeyValueMatcher) (old : Option Note) (c : ℕ) (s : Text)
    (f : Option Note × Text → A)
    → is_space c ≡ false
    → IsDone (inline_comments_and_unquote m old (c ∷ s) >>= λ r. done (f r))
unfolding inline_comments_and_unquote
inline_comments_and_unquote-IsDone m old c s f h =
    clear_quotes-IsDone _ f _ (without_comment-NotEmpty m.inline_comment c s h)

IsDone-if :
    {A : Type 0} (b : Bool) (x y : Outcome A) → IsDone x → IsDone y → IsDone (if b then x else y)
IsDone-if true x y h k = h
IsDone-if false x y h k = k

match_value-IsDone :
    (m : KeyValueMatcher) (key : Text) (old : Option Note) (val : Text)
    → NoneOrBegins is_space val
    → IsDone (match_value m key old val)
unfolding match_value byte_len
match_value-IsDone m key old [] h = search (IsDone-if, is_done)
match_value-IsDone m key old (c ∷ s) h =
    search (IsDone-if, is_done, inline_comments_and_unquote-IsDone m old c s (one_line key) h)

-- A match that is no panic.
abbrev pub IsSafe : Match → Type 0
IsSafe crash = ⊥
IsSafe no_token = Unit
IsSafe (token t) = Unit
IsSafe (wrong why) = Unit

value_match-IsSafe :
    (old : Option Note) (prev : Option Token) (r : Outcome ValueToken)
    → IsDone r
    → IsSafe (value_match old prev r).1
value_match-IsSafe old prev panics h = elim h [ ]
value_match-IsSafe old prev (done t) h = tt

after_key-IsSafe :
    (m : KeyValueMatcher) (prev : Option Token) (key val : Text) (why : Option Reason)
    → NoneOrBegins is_space val
    → IsSafe (after_key m prev key val why).1
after_key-IsSafe m prev key val (some why) h = tt
after_key-IsSafe m prev key val none h =
    let old = kept_comment m.merge_comments prev in
    value_match-IsSafe old prev (match_value m key old val) (match_value-IsDone m key old val h)

match_nodes-IsSafe :
    (m : KeyValueMatcher) (prev : Option Token) (parts : List Text)
    → IsSafe (match_nodes m prev (map trim_space parts)).1
match_nodes-IsSafe m prev [] = tt
match_nodes-IsSafe m prev (key ∷ []) = tt
match_nodes-IsSafe m prev (key ∷ val ∷ []) =
    after_key-IsSafe m prev (trim_space key) (trim_space val)
      (key_error m.key_check_fn (trim_space key)) (trim_space-NoneOrBegins val)
match_nodes-IsSafe m prev (key ∷ val ∷ v ∷ vs) = tt

split_n_trimmed-map :
    (s sep : Text) (n : ℤ) → (parts : List Text) × (split_n_trimmed s sep n ≡ map trim_space parts)
unfolding split_n_trimmed
split_n_trimmed-map s sep n = elim (Bool-cases (is_empty (trim_space s))) [
  | inl e ↦ ([], if_true _ _ e)
  | inr e ↦ (split_text_n (trim_space s) sep n, if_false _ _ e)
]

pub match_key_value-IsSafe :
    (m : KeyValueMatcher) (text : Text) (prev : Option Token)
    → IsSafe (match_key_value m text prev).1
unfolding match_key_value
match_key_value-IsSafe m text prev = elim (Bool-cases (is_empty (trim_space text))) [
  | inl e ↦ subst (λ (r : Option Token × Match). IsSafe r.1) (sym (if_true _ _ e)) tt
  | inr e ↦
      let (parts, e') =
        split_n_trimmed-map (trim_space text) (separator_or_default m.separator) (pos 2) in
      subst (λ (r : Option Token × Match). IsSafe r.1)
        (sym (if_false _ _ e ∙ ap (match_nodes m prev) e')) (match_nodes-IsSafe m prev parts)
]

merged_match-IsSafe : (r : Note × Option Reason) → IsSafe (merged_match r)
merged_match-IsSafe (n, none) = tt
merged_match-IsSafe (n, some why) = tt

detected_match-IsSafe :
    (m : CommentsMatcher) (text : Text) (prev : Option Token) (d : Detected)
    → IsSafe (detected_match m text prev d)
detected_match-IsSafe m text prev missed = tt
detected_match-IsSafe m text prev (refused why) = tt
detected_match-IsSafe m text prev (found more) =
    merged_match-IsSafe (merge_prev (comment_of m text more) prev)

pub match_comments-IsSafe :
    (m : CommentsMatcher) (text : Text) (prev : Option Token)
    → IsSafe (match_comments m text prev).1
unfolding match_comments
match_comments-IsSafe m text prev = elim (Bool-cases (is_empty (trim_space text))) [
  | inl e ↦ subst (λ (r : Option Token × Match). IsSafe r.1) (sym (if_true _ _ e)) tt
  | inr e ↦
      subst (λ (r : Option Token × Match). IsSafe r.1) (sym (if_false _ _ e))
        (detected_match-IsSafe m (trim_space text) prev (match_fn_of m (trim_space text)))
]
