-- ===== src/Text/SplitN.antt =====
-- `strings.SplitN`: a split with at most a given number of parts.
use goutil.Prelude.{ℕ, zero, suc, ◌-◌, List, [], ◌∷◌, if◌then◌else◌, length}
use goutil.Prelude.Int.{ℤ, pos, negsuc}
use goutil.Text.{Text, has_prefix, push_head, split_text}

-- `cuts` more cuts are allowed, and `skip` characters of a separator are still to pass.
unfoldable pub split_n_from : ℕ → ℕ → Text → Text → List Text
split_n_from cuts skip sep [] = [] ∷ []
split_n_from cuts (suc skip) sep (c ∷ s) = split_n_from cuts skip sep s
split_n_from zero zero sep (c ∷ s) = (c ∷ s) ∷ []
split_n_from (suc cuts) zero sep (c ∷ s) =
    let behind = split_n_from cuts (length sep - 1) sep s in
    let parts = split_n_from (suc cuts) zero sep s in
    if has_prefix (c ∷ s) sep then [] ∷ behind else push_head c parts

-- An empty separator splits behind each character.
unfoldable pub explode : ℕ → Text → List Text
explode cuts [] = []
explode zero (c ∷ s) = (c ∷ s) ∷ []
explode (suc cuts) (c ∷ s) = (c ∷ []) ∷ explode cuts s

unfoldable pub split_text_n : Text → Text → ℤ → List Text
unfolding split_n_from explode
split_text_n s sep (negsuc n) = split_text s sep
split_text_n s sep (pos zero) = []
split_text_n s [] (pos (suc cuts)) = explode cuts s
split_text_n s (d ∷ sep) (pos (suc cuts)) = split_n_from cuts 0 (d ∷ sep) s
