-- ===== src/Text/Laws.antt =====
-- Trimming and comparing texts.
use mathlib.Core.List.{reverse, reverse-append, reverse-reverse, reverse-cons}
use mathlib.Core.Path.{subst}
use goutil.Prelude.{ℕ, ◌≡◌, refl, ap, ◌∙◌, arith, ◌↔◌, Bool, true, false, not, ◌&&◌, [], ◌∷◌, ◌++◌}
use goutil.Text.{Text, is_space, trim_left_by, trim_right_by, trim_space, text_eq}

pub text_eq_iff : (s t : Text) → (text_eq s t ≡ true) ↔ (s ≡ t)
unfolding text_eq
text_eq_iff (c ∷ s) (d ∷ t) = ground (arith, text_eq_iff s t)
text_eq_iff _ _ = ground arith

-- Every character passes the test.
abbrev pub Every : (ℕ → Bool) → Text → Type 0
Every p [] = Unit
Every p (c ∷ s) = (p c ≡ true) × Every p s

abbrev pub every : (ℕ → Bool) → Text → Bool
every p [] = true
every p (c ∷ s) = p c && every p s

pub Every-of_every : (p : ℕ → Bool) (s : Text) → every p s ≡ true → Every p s
Every-of_every p [] h = tt
Every-of_every p (c ∷ s) h = (ground arith, Every-of_every p s (ground arith))

pub Every-append : (p : ℕ → Bool) (s t : Text) → Every p s → Every p t → Every p (s ++ t)
Every-append p [] t h k = k
Every-append p (c ∷ s) t (hc, h) k = (hc, Every-append p s t h k)

-- A text that is not empty has a last character.
pub last_split : (c : ℕ) (s : Text) → (init : Text) × (l : ℕ) × (c ∷ s ≡ init ++ l ∷ [])
last_split c [] = ([], c, refl)
last_split c (d ∷ s) = let (init, l, e) = last_split d s in (c ∷ init, l, ap (◌∷◌ c) e)

pub trim_right_by_keep :
    (p : ℕ → Bool) (s : Text) (l : ℕ) → p l ≡ false → trim_right_by p (s ++ l ∷ []) ≡ s ++ l ∷ []
unfolding trim_right_by trim_left_by
trim_right_by_keep p s l h =
    rw (reverse-append s (l ∷ []), h)
      (reverse-cons l (reverse s) ∙ ap (λ t. t ++ l ∷ []) (reverse-reverse s))

-- A text whose first and last characters are not spaces is trimmed to itself.
pub trim_space_keep :
    (c : ℕ) (s init : Text) (l : ℕ)
    → is_space c ≡ false
    → c ∷ s ≡ init ++ l ∷ []
    → is_space l ≡ false
    → trim_space (c ∷ s) ≡ c ∷ s
unfolding trim_space
trim_space_keep c s init l hc e hl = rw (hc, e) (trim_right_by_keep is_space init l hl)

pub Every-last : (p : ℕ → Bool) (init : Text) (l : ℕ) → Every p (init ++ l ∷ []) → p l ≡ true
Every-last p [] l (h, _) = h
Every-last p (c ∷ init) l (_, h) = Every-last p init l h

abbrev pub solid_char : ℕ → Bool
solid_char c = not (is_space c)

-- A text without spaces is trimmed to itself.
pub trim_space-solid : (c : ℕ) (s : Text) → Every solid_char (c ∷ s) → trim_space (c ∷ s) ≡ c ∷ s
trim_space-solid c s h =
    let (init, l, e) = last_split c s in
    let last = Every-last solid_char init l (subst (Every solid_char) e h) in
    let first : is_space c ≡ false = ground (arith, h.0) in
    trim_space_keep c s init l first e (ground arith)
