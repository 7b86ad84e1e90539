-- ===== src/Textscan/PairMatch.antt =====
-- How the two matchers take a line with a key.
use mathlib.Core.List.{reverse, reverse-append}
use goutil.Prelude.{
  ℕ, map, ◌≡◌, refl, sym, ap, ◌∙◌, arith, Bool, true, false, [], ◌∷◌, ◌++◌, Option, none, some,
  ◌==◌, if_false, append_assoc, append-nil,
}
use goutil.Prelude.Int.{pos}
use goutil.Prelude.Outcome.{done}
use goutil.Text.{Text, is_space, trim_space, has_prefix, has_suffix, last_or, byte_len}
use goutil.Text.Laws.{Every, Every-append, last_split}
use goutil.Text.Splits.{differs}
use goutil.Text.SplitN.{split_n_from, split_text_n}
use goutil.Text.Trim.{trim_space_around, trim_space_all, trim_space_ends}
use goutil.Strutil.Cut.{is_empty, split_n_trimmed}
use goutil.Textscan.Tokens.{
  Note, comment, string, Token, note, value, ValueToken, comment_text, text_of_note, token_value,
}
use goutil.Textscan.Scanner.{no_token, token}
use goutil.Textscan.Comments.{new_comments_matcher, match_comments, comments_detect}
use goutil.Textscan.KeyValue.{
  match_key_value, match_nodes, match_value, one_line, value_match, kept_comment, shared_prev,
}
use goutil.Textscan.LineMatch.{reader}
use goutil.Textscan.Lines.{
  equals, line_text, TrimmedText, IsValue-TrimmedText, IsTrimmed, IsKey, IsValue, run_of, IsOurs,
  kept, view, pair_seen, IsLine, pair,
}

space-differs : (c : ℕ) → is_space c ≡ true → differs equals c ≡ true
unfolding is_space
space-differs c h = ground arith

spaces-differ : (w : Text) → Every is_space w → Every (differs equals) w
spaces-differ [] h = tt
spaces-differ (c ∷ w) (hc, h) = (space-differs c hc, spaces-differ w h)

last_or_concat : (c : ℕ) (s : Text) (d : ℕ) → last_or c (s ++ d ∷ []) ≡ d
unfolding last_or
last_or_concat c [] d = refl
last_or_concat c (e ∷ s) d = last_or_concat e s d

last_or-append : (c : ℕ) (s : Text) (d : ℕ) (t : Text) → last_or c (s ++ d ∷ t) ≡ last_or d t
unfolding last_or
last_or-append c [] d t = refl
last_or-append c (e ∷ s) d t = last_or-append e s d t

split_n_from-rest : (b : ℕ) (rest : Text) → split_n_from 0 0 (b ∷ []) rest ≡ rest ∷ []
unfolding split_n_from
split_n_from-rest b [] = refl
split_n_from-rest b (c ∷ s) = refl

-- A split into two parts cuts at the first separator.
split_n_from-append :
    (b : ℕ) (name rest : Text)
    → Every (differs b) name
    → split_n_from 1 0 (b ∷ []) (name ++ b ∷ rest) ≡ name ∷ rest ∷ []
unfolding split_n_from has_prefix
split_n_from-append b [] rest h = ground (arith, split_n_from-rest b rest)
split_n_from-append b (c ∷ name) rest (hc, h) = ground (arith, split_n_from-append b name rest h)

-- The parts of a line with a key, once it is trimmed.
abbrev PairText : ℕ → Text → Text → Text → Text → Type 0
PairText c k w val line =
    (rest : Text) × (trim_space line ≡ c ∷ (k ++ (w ++ (equals ∷ rest))))
    × (trim_space rest ≡ val)
    × (is_space (last_or c (k ++ (w ++ (equals ∷ rest)))) ≡ false)

line_text-PairText :
    (w : Text) (c : ℕ) (k w' w'' val : Text)
    → Every is_space w
    → IsTrimmed c k
    → Every is_space w''
    → TrimmedText val
    → PairText c k w' val (w ++ ((c ∷ k) ++ (w' ++ (equals ∷ (w'' ++ val)))))
line_text-PairText w c k w' w'' [] hw (hc, hl) hw'' hv =
    let s = k ++ (w' ++ equals ∷ []) in
    let e' : s ≡ (k ++ w') ++ equals ∷ [] = simp append_assoc in
    let ends : last_or c s ≡ equals = ap (last_or c) e' ∙ last_or_concat c (k ++ w') equals in
    let ends' : is_space (last_or c s) ≡ false = ap is_space ends ∙ unfold is_space in refl in
    let e : w ++ ((c ∷ k) ++ (w' ++ (equals ∷ (w'' ++ [])))) ≡ w ++ ((c ∷ s) ++ w'') =
      simp (append_assoc, append-nil) in
    (
      [],
      ap trim_space e ∙ trim_space_around w c s w'' hw hc ends' hw'',
      trim_space_all [] tt,
      ends',
    )
line_text-PairText w c k w' w'' (d ∷ v) hw (hc, hl) hw'' hv =
    let s = k ++ (w' ++ (equals ∷ (w'' ++ d ∷ v))) in
    let e : s ≡ (k ++ (w' ++ equals ∷ w'')) ++ d ∷ v = simp append_assoc in
    let ends = ap (last_or c) e ∙ last_or-append c (k ++ (w' ++ equals ∷ w'')) d v in
    let ends' : is_space (last_or c s) ≡ false = ap is_space ends ∙ hv.1 in
    (
      w'' ++ d ∷ v,
      ap (λ t. trim_space (w ++ t)) (sym (append-nil (c ∷ s)))
          ∙ trim_space_around w c s [] hw hc ends' tt,
      ap (λ t. trim_space (w'' ++ t)) (sym (append-nil (d ∷ v)))
          ∙ trim_space_around w'' d v [] hw'' hv.0 hv.1 tt,
      ends',
    )

-- The two nodes of a line with a key.
split_n_trimmed-pair :
    (c : ℕ) (k w' val rest : Text)
    → IsKey (c ∷ k)
    → Every is_space w'
    → trim_space rest ≡ val
    → is_space (last_or c (k ++ (w' ++ (equals ∷ rest)))) ≡ false
    → split_n_trimmed (c ∷ (k ++ (w' ++ (equals ∷ rest)))) (equals ∷ []) (pos 2)
      ≡ (c ∷ k) ∷ val ∷ []
unfolding split_n_trimmed split_text_n
split_n_trimmed-pair c k w' val rest ((hc, hl), hk, _, _) hw' hv ends =
    let trimmed = trim_space_ends c (k ++ (w' ++ (equals ∷ rest))) hc ends in
    let e : c ∷ (k ++ (w' ++ (equals ∷ rest))) ≡ ((c ∷ k) ++ w') ++ equals ∷ rest =
      simp append_assoc in
    let parts =
      split_n_from-append equals ((c ∷ k) ++ w') rest
        (Every-append (differs equals) (c ∷ k) w' hk (spaces-differ w' hw')) in
    if_false _ _ (ap is_empty trimmed)
    ∙ ap (λ t. map trim_space (split_text_n t (equals ∷ []) (pos 2))) (trimmed ∙ e)
    ∙ ap (map trim_space) parts
    ∙ ap (λ t. t ∷ trim_space rest ∷ []) (trim_space_around [] c k w' tt hc hl hw')
    ∙ ap (λ t. (c ∷ k) ∷ t ∷ []) hv

pub has_suffix-last :
    (c : ℕ) (s : Text) (q : ℕ) → (last_or c s == q) ≡ false → has_suffix (c ∷ s) (q ∷ []) ≡ false
unfolding has_suffix has_prefix last_or
has_suffix-last c s q h =
    let (init, l, e) = last_split c s in
    let same : last_or c s ≡ l = ap (last_or c) e ∙ last_or_concat c init l in
    let first : has_prefix (l ∷ reverse init) (q ∷ []) ≡ false = ground (arith, same) in
    ap (λ t. has_suffix t (q ∷ [])) e
    ∙ ap (λ t. has_prefix t (q ∷ [])) (reverse-append init (l ∷ []))
    ∙ first

match_value-one_line :
    (merge single : Bool) (key : Text) (old : Option Note) (val : Text)
    → IsValue val
    → match_value (reader merge single) key old val ≡ done (one_line key (old, val))
unfolding match_value byte_len has_prefix
match_value-one_line merge true key old [] h = refl
match_value-one_line merge false key old [] h = refl
match_value-one_line merge true key old (c ∷ s) h = ground (arith, h)
match_value-one_line merge false key old (c ∷ s) h =
    ground (arith, h, has_suffix-last c s b'\\' h.3)

-- A line with a key is no comment.
pub match_comments-pair :
    (w : Text) (c : ℕ) (k w' w'' val : Text) (prev : Option Token)
    → Every is_space w
    → IsKey (c ∷ k)
    → Every is_space w''
    → TrimmedText val
    → match_comments new_comments_matcher (line_text (pair w (c ∷ k) w' w'' val)) prev
      ≡ (prev, no_token)
unfolding match_comments comments_detect
match_comments-pair w c k w' w'' val prev hw (hc, hk, h1, h2) hw'' hv =
    let (rest, e, _, _) = line_text-PairText w c k w' w'' val hw hc hw'' hv in
    rw e (ground (arith, h1, h2))

pub kept_comment-kept :
    (merge : Bool) (prev : Option Token)
    → IsOurs prev
    → (text_of_note (kept_comment merge prev) ≡ kept merge (run_of prev))
      × (shared_prev (kept_comment merge prev) (kept_comment merge prev) prev ≡ prev)
unfolding kept_comment
kept_comment-kept merge none h = (refl, refl)
kept_comment-kept merge (some (value t)) h = (refl, refl)
kept_comment-kept merge (some (note (string t))) h = absurd h
kept_comment-kept true (some (note (comment t))) h = (refl, refl)
kept_comment-kept false (some (note (comment t))) h = (refl, refl)

-- It has two nodes.
pub match_key_value-nodes :
    (merge single : Bool) (w : Text) (c : ℕ) (k w' w'' val : Text) (prev : Option Token)
    → Every is_space w
    → IsKey (c ∷ k)
    → Every is_space w'
    → Every is_space w''
    → TrimmedText val
    → match_key_value (reader merge single) (line_text (pair w (c ∷ k) w' w'' val)) prev
      ≡ match_nodes (reader merge single) prev ((c ∷ k) ∷ val ∷ [])
unfolding match_key_value
match_key_value-nodes merge single w c k w' w'' val prev hw hk hw' hw'' hv =
    let (rest, e, e', ends) = line_text-PairText w c k w' w'' val hw hk.0 hw'' hv in
    let nodes = split_n_trimmed-pair c k w' val rest hk hw' e' ends in
    if_false _ _ (ap is_empty e)
    ∙ ap (λ t. match_nodes (reader merge single) prev (split_n_trimmed t (equals ∷ []) (pos 2))) e
    ∙ ap (match_nodes (reader merge single) prev) nodes

-- It is a value with its key.
pub match_key_value-pair :
    (merge single : Bool) (w : Text) (c : ℕ) (k w' w'' val : Text) (prev : Option Token)
    → IsLine (pair w (c ∷ k) w' w'' val)
    → IsOurs prev
    → (t : ValueToken) × (match_key_value
          (reader merge single)
          (line_text (pair w (c ∷ k) w' w'' val))
          prev
        ≡ (prev, token (value t)))
      × (t.more ≡ false)
      × (view (value t) ≡ pair_seen (c ∷ k) val (kept merge (run_of prev)))
match_key_value-pair merge single w c k w' w'' val prev (hw, hk, hw', hw'', hv) ours =
    let old = kept_comment merge prev in
    let one = match_value-one_line merge single (c ∷ k) old val hv in
    let (text, same) = kept_comment-kept merge prev ours in
    (
      one_line (c ∷ k) (old, val),
      match_key_value-nodes merge single w c k w' w'' val prev hw hk hw' hw''
            (IsValue-TrimmedText val hv)
          ∙ ap (value_match old prev) one
          ∙ ap (λ p. (p, token (value (one_line (c ∷ k) (old, val))))) same,
      refl,
      unfold token_value comment_text in ap (pair_seen (c ∷ k) val) text,
    )
