-- ===== src/Text/TrimFirst.antt =====
-- Trimming leaves nothing or a text that begins with no space.
use mathlib.Core.List.{reverse, reverse-append, reverse-cons}
use mathlib.Core.Path.{subst}
use goutil.Prelude.{
  ℕ, ◌≡◌, sym, ap, ◌∙◌, Bool, false, [], ◌∷◌, ◌++◌, if_true, if_false, Bool-cases, inl, inr,
}
use goutil.Text.{Text, is_space, trim_left_by, trim_right_by, trim_space}

-- Nothing, or a text that begins with a character which does not pass the test.
abbrev pub NoneOrBegins : (ℕ → Bool) → Text → Type 0
NoneOrBegins p [] = Unit
NoneOrBegins p (c ∷ s) = p c ≡ false

trim_left_by-NoneOrBegins : (p : ℕ → Bool) (s : Text) → NoneOrBegins p (trim_left_by p s)
unfolding trim_left_by
trim_left_by-NoneOrBegins p [] = tt
trim_left_by-NoneOrBegins p (c ∷ s) = elim (Bool-cases (p c)) [
  | inl e ↦ rw e (trim_left_by-NoneOrBegins p s)
  | inr e ↦ rw e e
]

trim_left_by_concat :
    (p : ℕ → Bool) (s : Text) (c : ℕ)
    → p c ≡ false
    → (t : Text) × (trim_left_by p (s ++ c ∷ []) ≡ t ++ c ∷ [])
unfolding trim_left_by
trim_left_by_concat p [] c h = ([], if_false _ _ h)
trim_left_by_concat p (d ∷ s) c h = elim (Bool-cases (p d)) [
  | inl e ↦ let (t, e') = trim_left_by_concat p s c h in (t, if_true _ _ e ∙ e')
  | inr e ↦ (d ∷ s, if_false _ _ e)
]

-- Trimming on the right keeps the first character, if it is not to be trimmed.
pub trim_right_by_cons :
    (p : ℕ → Bool) (c : ℕ) (s : Text) → p c ≡ false → (t : Text) × (trim_right_by p (c ∷ s) ≡ c ∷ t)
unfolding trim_right_by
trim_right_by_cons p c s h =
    let (t, e) = trim_left_by_concat p (reverse s) c h in
    (
      reverse t,
      ap (λ u. reverse (trim_left_by p u)) (reverse-cons c s)
          ∙ ap reverse e
          ∙ reverse-append t (c ∷ []),
    )

trim_right_by-NoneOrBegins :
    (p : ℕ → Bool) (s : Text) → NoneOrBegins p s → NoneOrBegins p (trim_right_by p s)
trim_right_by-NoneOrBegins p [] h = unfold trim_right_by trim_left_by in tt
trim_right_by-NoneOrBegins p (c ∷ s) h =
    let (t, e) = trim_right_by_cons p c s h in subst (NoneOrBegins p) (sym e) h

pub trim_space-NoneOrBegins : (s : Text) → NoneOrBegins is_space (trim_space s)
unfolding trim_space
trim_space-NoneOrBegins s =
    trim_right_by-NoneOrBegins is_space (trim_left_by is_space s)
      (trim_left_by-NoneOrBegins is_space s)
