-- ===== src/Cmdline/Panics.antt =====
-- When `Parse` panics: at a node that is one quote character, met outside quotes.
use goutil.Prelude.{◌≡◌, Bool, false, ◌||◌, List, [], ◌∷◌, ◌==◌}
use goutil.Prelude.Outcome.{Outcome}
use goutil.Text.{Text}
use goutil.Cmdline.{double_quote, single_quote}

-- The node is one quote character.
abbrev pub is_lone_quote : Text → Bool
is_lone_quote (c ∷ []) = c == double_quote || c == single_quote
is_lone_quote _ = false

abbrev pub NoLoneQuote : List Text → Type 0
NoLoneQuote [] = Unit
NoLoneQuote (n ∷ ns) = (is_lone_quote n ≡ false) × NoLoneQuote ns
