-- ===== src/Text/Trim.antt =====
-- Spaces around a text are trimmed, and no more.
use mathlib.Core.List.{reverse, reverse-append, reverse-cons}
use goutil.Prelude.{◌≡◌, refl, sym, ap, ◌∙◌, ℕ, Bool, false, [], ◌∷◌, ◌++◌, if_true, if_false}
use goutil.Text.{Text, is_space, trim_left_by, trim_right_by, trim_space, last_or}
use goutil.Text.Laws.{Every, Every-append, last_split, trim_right_by_keep}

trim_left_by-append :
    (p : ℕ → Bool) (w s : Text) → Every p w → trim_left_by p (w ++ s) ≡ trim_left_by p s
unfolding trim_left_by
trim_left_by-append p [] s h = refl
trim_left_by-append p (c ∷ w) s (hc, h) = if_true _ _ hc ∙ trim_left_by-append p w s h

trim_left_by_all : (p : ℕ → Bool) (w : Text) → Every p w → trim_left_by p w ≡ []
unfolding trim_left_by
trim_left_by_all p [] h = refl
trim_left_by_all p (c ∷ w) (hc, h) = if_true _ _ hc ∙ trim_left_by_all p w h

Every-reverse : (p : ℕ → Bool) (w : Text) → Every p w → Every p (reverse w)
Every-reverse p [] h = tt
Every-reverse p (c ∷ w) (hc, h) =
    rw (reverse-cons c w) (Every-append p (reverse w) (c ∷ []) (Every-reverse p w h) (hc, tt))

trim_right_by-append :
    (p : ℕ → Bool) (s w : Text) → Every p w → trim_right_by p (s ++ w) ≡ trim_right_by p s
unfolding trim_right_by
trim_right_by-append p s w h =
    rw (reverse-append s w, trim_left_by-append p (reverse w) (reverse s) (Every-reverse p w h))

last_or-append : (c : ℕ) (init : Text) (l : ℕ) → last_or c (init ++ l ∷ []) ≡ l
unfolding last_or
last_or-append c [] l = refl
last_or-append c (d ∷ init) l = last_or-append d init l

-- A text whose last character does not pass the test is kept.
trim_right_by_ends :
    (p : ℕ → Bool) (c : ℕ) (s : Text) → p (last_or c s) ≡ false → trim_right_by p (c ∷ s) ≡ c ∷ s
unfolding last_or
trim_right_by_ends p c s h =
    let (init, l, e) = last_split c s in
    let same : last_or c s ≡ l = ap (last_or c) e ∙ last_or-append c init l in
    rw e (trim_right_by_keep p init l (ap p (sym same) ∙ h))

pub trim_space_around :
    (w : Text) (c : ℕ) (s w' : Text)
    → Every is_space w
    → is_space c ≡ false
    → is_space (last_or c s) ≡ false
    → Every is_space w'
    → trim_space (w ++ ((c ∷ s) ++ w')) ≡ c ∷ s
unfolding trim_space trim_left_by
trim_space_around w c s w' hw hc hl hw' =
    ap (trim_right_by is_space)
      (trim_left_by-append is_space w (c ∷ (s ++ w')) hw ∙ if_false _ _ hc)
    ∙ trim_right_by-append is_space (c ∷ s) w' hw'
    ∙ trim_right_by_ends is_space c s hl

pub trim_space_all : (w : Text) → Every is_space w → trim_space w ≡ []
unfolding trim_space trim_right_by
trim_space_all w h = ap (trim_right_by is_space) (trim_left_by_all is_space w h)

pub trim_space_ends :
    (c : ℕ) (s : Text)
    → is_space c ≡ false
    → is_space (last_or c s) ≡ false
    → trim_space (c ∷ s) ≡ c ∷ s
unfolding trim_space trim_left_by
trim_space_ends c s hc hl =
    ap (trim_right_by is_space) (if_false _ _ hc) ∙ trim_right_by_ends is_space c s hl

-- No space at either end.
abbrev pub IsTrimmed : ℕ → Text → Type 0
IsTrimmed c s = (is_space c ≡ false) × (is_space (last_or c s) ≡ false)

abbrev pub TrimmedText : Text → Type 0
TrimmedText [] = Unit
TrimmedText (c ∷ s) = IsTrimmed c s

pub trim_space-TrimmedText :
    (w s w' : Text)
    → Every is_space w
    → TrimmedText s
    → Every is_space w'
    → trim_space (w ++ (s ++ w')) ≡ s
trim_space-TrimmedText w [] w' hw h hw' =
    trim_space_all (w ++ w') (Every-append is_space w w' hw hw')
trim_space-TrimmedText w (c ∷ s) w' hw h hw' = trim_space_around w c s w' hw h.0 h.1 hw'
