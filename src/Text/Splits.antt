-- ===== src/Text/Splits.antt =====
-- `Split` and `Join` at one character.
use goutil.Prelude.{ℕ, ◌≡◌, refl, ap, ◌∙◌, arith, Bool, not, List, [], ◌∷◌, ◌++◌, ◌==◌}
use goutil.Text.{Text, split_char, join_char}
use goutil.Text.Laws.{Every}

abbrev pub differs : ℕ → ℕ → Bool
differs sep c = not (c == sep)

abbrev pub NoneHas : ℕ → List Text → Type 0
NoneHas sep [] = Unit
NoneHas sep (w ∷ ws) = Every (differs sep) w × NoneHas sep ws

split_char_word : (sep : ℕ) (w : Text) → Every (differs sep) w → split_char sep w ≡ w ∷ []
unfolding split_char
split_char_word sep [] h = refl
split_char_word sep (c ∷ w) (hc, h) = ground (arith, split_char_word sep w h)

split_char-append :
    (sep : ℕ) (w rest : Text)
    → Every (differs sep) w
    → split_char sep (w ++ (sep ∷ rest)) ≡ w ∷ split_char sep rest
unfolding split_char
split_char-append sep [] rest h = ground arith
split_char-append sep (c ∷ w) rest (hc, h) = ground (arith, split_char-append sep w rest h)

-- Splitting a join gives the parts back, where there is a part and none holds the separator.
pub split_char-join_char :
    (sep : ℕ) (w : Text) (ws : List Text)
    → NoneHas sep (w ∷ ws)
    → split_char sep (join_char sep (w ∷ ws)) ≡ w ∷ ws
unfolding join_char
split_char-join_char sep w [] (h, _) = split_char_word sep w h
split_char-join_char sep w (v ∷ ws) (h, k) =
    split_char-append sep w (join_char sep (v ∷ ws)) h
    ∙ ap (◌∷◌ w) (split_char-join_char sep v ws k)
