-- ===== src/Strutil/BaseDigits.antt =====
-- The number that a text has in a base, described by its last digit, and the positions in a template.
use goutil.Prelude.{
  ℕ, zero, suc, ◌+◌, ◌*◌, ◌<◌, ◌≡◌, refl, ap, ◌∙◌, arith, Bool, true, false, not, ◌&&◌, [], ◌∷◌,
  ◌++◌, some, ◌==◌, ==_iff, if_false, Bool-cases, inl, inr, length, take, get_elem?,
}
use goutil.Prelude.Int.{pos}
use goutil.Text.{Text, index_char, index_char_from, contains_char}

-- The text has the value in the base of the template: behind a text with the value n, the character
-- at position d of the template gives n times the base and d.
pub data HasValue : Text → Text → ℕ → Type 0 where
  no_digits : {tpl : Text} → HasValue tpl [] 0
  digit_behind :
      {tpl s : Text} {n : ℕ} (d : ℕ) {c : ℕ}
      → HasValue tpl s n
      → get_elem? tpl d ≡ some c
      → HasValue tpl (s ++ c ∷ []) (n * length tpl + d)

-- No character stands twice in the text.
unfoldable pub is_distinct : Text → Bool
unfolding contains_char
is_distinct [] = true
is_distinct (c ∷ s) = not (contains_char s c) && is_distinct s

pub get_elem?-contains_char :
    (s : Text) (d c : ℕ) → get_elem? s d ≡ some c → contains_char s c ≡ true
unfolding contains_char
get_elem?-contains_char [] d c h = cc
get_elem?-contains_char (e ∷ s) zero c h = ground arith
get_elem?-contains_char (e ∷ s) (suc d) c h = ground (arith, get_elem?-contains_char s d c h)

pub get_elem?_lt : (s : Text) (d c : ℕ) → get_elem? s d ≡ some c → d < length s
get_elem?_lt [] d c h = cc
get_elem?_lt (e ∷ s) zero c h = omega arith
get_elem?_lt (e ∷ s) (suc d) c h = let l = get_elem?_lt s d c h in omega arith

is_distinct-parts :
    (c : ℕ) (s : Text)
    → is_distinct (c ∷ s) ≡ true
    → (contains_char s c ≡ false) × (is_distinct s ≡ true)
unfolding is_distinct
is_distinct-parts c s h = ground arith

-- The first occurrence of a character of a distinct text is its position.
index_char_from-get_elem? :
    (i : ℕ) (s : Text) (d c : ℕ)
    → is_distinct s ≡ true
    → get_elem? s d ≡ some c
    → index_char_from i c s ≡ pos (i + d)
unfolding index_char_from is_distinct
index_char_from-get_elem? i [] d c h g = cc
index_char_from-get_elem? i (e ∷ s) zero c h g = ground arith
index_char_from-get_elem? i (e ∷ s) (suc d) c h g =
    let m = get_elem?-contains_char s d c g in
    let (fresh, tail) = is_distinct-parts e s h in
    let rest = index_char_from-get_elem? (i + 1) s d c in
    let e' : i + 1 + d ≡ i + suc d = omega arith in
    elim (Bool-cases (e == c)) [
      | inl same ↦ let ec = (==_iff e c).0 same in cc (m, ec, fresh)
      | inr other ↦ if_false _ _ other ∙ rest tail g ∙ ap pos e'
    ]

pub index_char-get_elem? :
    (s : Text) (d c : ℕ) → is_distinct s ≡ true → get_elem? s d ≡ some c → index_char s c ≡ pos d
unfolding index_char
index_char-get_elem? s d c h g =
    let e : 0 + d ≡ d = omega arith in index_char_from-get_elem? 0 s d c h g ∙ ap pos e

contains_char-take :
    (n : ℕ) (s : Text) (c : ℕ) → contains_char s c ≡ false → contains_char (take n s) c ≡ false
unfolding contains_char
contains_char-take zero s c h = refl
contains_char-take (suc n) [] c h = refl
contains_char-take (suc n) (d ∷ s) c h = ground (arith, contains_char-take n s c)

pub is_distinct-take : (n : ℕ) (s : Text) → is_distinct s ≡ true → is_distinct (take n s) ≡ true
unfolding is_distinct
is_distinct-take zero s h = refl
is_distinct-take (suc n) [] h = refl
is_distinct-take (suc n) (d ∷ s) h = ground (arith, contains_char-take n s d, is_distinct-take n s)
