-- ===== src/Strutil/Convert.antt =====
-- strutil/convert.go: quotes.
use goutil.Prelude.{ℕ, Bool, ◌&&◌, ◌||◌, [], ◌∷◌, ◌==◌, if◌then◌else◌}
use goutil.Text.{Text, drop_last, last_or}

abbrev pub quoted_by : ℕ → ℕ → ℕ → Bool
quoted_by q first last = first == q && last == q

-- A pair of quotes, double or single, around the text is taken off.
unfoldable pub unquote : Text → Text
unfolding last_or
unquote [] = []
unquote (c ∷ []) = c ∷ []
unquote (c ∷ d ∷ s) =
    if quoted_by b'"' c (last_or d s) || quoted_by b'\'' c (last_or d s)
    then drop_last (d ∷ s)
    else c ∷ d ∷ s
