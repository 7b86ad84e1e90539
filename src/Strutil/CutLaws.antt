-- ===== src/Strutil/CutLaws.antt =====
-- Cutting and splitting at a separator of one character.
use goutil.Prelude.{
  ℕ, suc, ◌+◌, ◌≡◌, refl, ap, ◌∙◌, sym, arith, Bool, true, false, ◌&&◌, List, [], ◌∷◌, ◌++◌, length,
  take, drop, if_false,
}
use mathlib.Core.Path.{subst}
use goutil.Prelude.Int.{pos}
use goutil.Text.{
  Text, trim_space, index_text, index_from, has_prefix, split_text, split_from, split_char,
  join_char, contains_char,
}
use goutil.Text.Laws.{Every, Every-append, solid_char, trim_space-solid}
use goutil.Text.Splits.{differs, NoneHas, split_char-join_char}
use goutil.Strutil.Cut.{cut, is_empty, split, split_loop}

take-length_append : {A : Type 0} (xs ys : List A) → take (length xs) (xs ++ ys) ≡ xs
take-length_append [] ys = refl
take-length_append (x ∷ xs) ys = ap (◌∷◌ x) (take-length_append xs ys)

drop-length_append :
    {A : Type 0} (xs : List A) (y : A) (ys : List A) → drop (length xs + 1) (xs ++ y ∷ ys) ≡ ys
drop-length_append [] y ys = refl
drop-length_append (x ∷ xs) y ys =
    let e : suc (length xs) + 1 ≡ suc (length xs + 1) = omega arith in
    rw e (drop-length_append xs y ys)

index_from-char :
    (i b : ℕ) (name rest : Text)
    → Every (differs b) name
    → index_from i (b ∷ []) (name ++ b ∷ rest) ≡ pos (i + length name)
unfolding index_from has_prefix
index_from-char i b [] rest h = ground arith
index_from-char i b (c ∷ name) rest (hc, h) =
    let e : i + suc (length name) ≡ i + 1 + length name = omega arith in
    ground (arith, index_from-char (i + 1) b name rest h)

-- A text is cut at the first occurrence of a character.
pub cut-char :
    (b : ℕ) (name rest : Text)
    → Every (differs b) name
    → cut (name ++ b ∷ rest) (b ∷ []) ≡ (name, rest, true)
unfolding cut index_text
cut-char b name rest h =
    let e : 0 + length name ≡ length name = omega arith in
    rw (
      index_from-char 0 b name rest h ∙ ap pos e,
      cut,
      take-length_append name (b ∷ rest),
      drop-length_append name b rest,
    )

split_from-split_char : (d : ℕ) (s : Text) → split_from 0 (d ∷ []) s ≡ split_char d s
unfolding split_from split_char has_prefix
split_from-split_char d [] = refl
split_from-split_char d (c ∷ s) = ground (arith, split_from-split_char d s)

pub contains_char-append : (b : ℕ) (name rest : Text) → contains_char (name ++ b ∷ rest) b ≡ true
unfolding contains_char
contains_char-append b [] rest = ground arith
contains_char-append b (c ∷ name) rest = ground (arith, contains_char-append b name rest)

-- A part of a separated list: not empty, without spaces and without the separator.
abbrev pub part_char : ℕ → ℕ → Bool
part_char d c = solid_char c && differs d c

abbrev pub IsPart : ℕ → Text → Type 0
IsPart d [] = ⊥
IsPart d (c ∷ s) = Every (part_char d) (c ∷ s)

abbrev pub AllParts : ℕ → List Text → Type 0
AllParts d [] = Unit
AllParts d (w ∷ ws) = IsPart d w × AllParts d ws

Every-part-solid : (d : ℕ) (s : Text) → Every (part_char d) s → Every solid_char s
Every-part-solid d [] h = tt
Every-part-solid d (c ∷ s) (hc, h) = (ground (arith, hc), Every-part-solid d s h)

Every-part-differs : (d : ℕ) (s : Text) → Every (part_char d) s → Every (differs d) s
Every-part-differs d [] h = tt
Every-part-differs d (c ∷ s) (hc, h) = (ground (arith, hc), Every-part-differs d s h)

AllParts-NoneHas : (d : ℕ) (ws : List Text) → AllParts d ws → NoneHas d ws
AllParts-NoneHas d [] h = tt
AllParts-NoneHas d ([] ∷ ws) (h, hs) = absurd h
AllParts-NoneHas d ((c ∷ w) ∷ ws) (h, hs) =
    (Every-part-differs d (c ∷ w) h, AllParts-NoneHas d ws hs)

split_loop-parts : (d : ℕ) (ws : List Text) → AllParts d ws → split_loop ws ≡ ws
unfolding split_loop
split_loop-parts d [] h = refl
split_loop-parts d ([] ∷ ws) (h, hs) = absurd h
split_loop-parts d ((c ∷ w) ∷ ws) (h, hs) =
    rw (trim_space-solid c w (Every-part-solid d (c ∷ w) h), split_loop-parts d ws hs)

join_char-solid :
    (d : ℕ) (w : Text) (ws : List Text)
    → solid_char d ≡ true
    → AllParts d (w ∷ ws)
    → Every solid_char (join_char d (w ∷ ws))
unfolding join_char
join_char-solid d [] ws hd (h, _) = absurd h
join_char-solid d (c ∷ w) [] hd (h, _) = Every-part-solid d (c ∷ w) h
join_char-solid d (c ∷ w) (v ∷ ws) hd (h, hs) =
    Every-append solid_char (c ∷ w) (d ∷ join_char d (v ∷ ws)) (Every-part-solid d (c ∷ w) h)
      (hd, join_char-solid d v ws hd hs)

-- A join begins with the first character of its first part.
pub join_char-cons :
    (d c : ℕ) (w : Text) (ws : List Text) → (rest : Text) × (join_char d ((c ∷ w) ∷ ws) ≡ c ∷ rest)
unfolding join_char
join_char-cons d c w [] = (w, refl)
join_char-cons d c w (v ∷ ws) = (w ++ d ∷ join_char d (v ∷ ws), refl)

pub trim_space-join_char :
    (d c : ℕ) (w : Text) (ws : List Text)
    → solid_char d ≡ true
    → AllParts d ((c ∷ w) ∷ ws)
    → trim_space (join_char d ((c ∷ w) ∷ ws)) ≡ join_char d ((c ∷ w) ∷ ws)
trim_space-join_char d c w ws hd h =
    let (rest, e) = join_char-cons d c w ws in
    let solid = subst (Every solid_char) e (join_char-solid d (c ∷ w) ws hd h) in
    ap trim_space e ∙ trim_space-solid c rest solid ∙ sym e

split_trimmed_text :
    (s sep : Text)
    → trim_space s ≡ s
    → is_empty s ≡ false
    → split s sep ≡ split_loop (split_text s sep)
unfolding split
split_trimmed_text s sep h k =
    if_false _ _ (ap is_empty h ∙ k) ∙ ap (λ t. split_loop (split_text t sep)) h

-- `Split` gives back parts that were joined with a separator of one character, where no part is
-- empty or holds a space or the separator, which is no space itself.
pub split-join_char :
    (d c : ℕ) (w : Text) (ws : List Text)
    → solid_char d ≡ true
    → AllParts d ((c ∷ w) ∷ ws)
    → split (join_char d ((c ∷ w) ∷ ws)) (d ∷ []) ≡ (c ∷ w) ∷ ws
unfolding split_text
split-join_char d c w ws hd h =
    let parts = (c ∷ w) ∷ ws in
    let (rest, e) = join_char-cons d c w ws in
    split_trimmed_text (join_char d parts) (d ∷ []) (trim_space-join_char d c w ws hd h)
      (ap is_empty e)
    ∙ ap split_loop (
        split_from-split_char d (join_char d parts)
        ∙ split_char-join_char d (c ∷ w) ws (AllParts-NoneHas d parts h))
    ∙ split_loop-parts d parts h
