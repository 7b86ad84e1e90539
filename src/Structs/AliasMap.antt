-- ===== src/Structs/AliasMap.antt =====
-- structs/alias.go: the aliases of names. The checker is the client's: it returns or panics, which
-- `false` stands for. A panic ends the program, so the state behind it is not kept.
use goutil.Prelude.{Bool, true, not, List, [], ◌∷◌, Option, none, some, if◌then◌else◌}
use goutil.Prelude.Outcome.{Outcome, done, panics, ◌>>=◌}
use goutil.Text.{Text}
use goutil.Maputil.Values.{StringMap, put_string}
use goutil.Maputil.StringMaps.{smap_has, smap_default}

pub record Aliases : Type 0 where
  pub mapping : Option StringMap
  pub checker : Option (Text → Bool)

unfoldable pub new_aliases : Option (Text → Bool) → Aliases
new_aliases checker = record { mapping = none; checker = checker }

-- The nil map reads as an empty one.
abbrev pub made : Option StringMap → StringMap
made none = []
made (some m) = m

abbrev pub accepts : Option (Text → Bool) → Text → Bool
accepts none alias = true
accepts (some check) alias = check alias

unfoldable pub add_alias : Aliases → Text → Text → Outcome Aliases
unfolding put_string smap_has
add_alias aliases real alias =
    let m = made aliases.mapping in
    if not (accepts aliases.checker alias)
    then panics
    else if smap_has m alias
    then panics
    else done (record { mapping = some (put_string alias real m); checker = aliases.checker })

unfoldable pub add_aliases : Aliases → Text → List Text → Outcome Aliases
unfolding add_alias
add_aliases aliases real [] = done aliases
add_aliases aliases real (a ∷ names) =
    add_alias aliases real a >>= λ aliases'. add_aliases aliases' real names

unfoldable pub add_alias_map : Aliases → StringMap → Outcome Aliases
unfolding add_alias
add_alias_map aliases [] = done aliases
add_alias_map aliases ((a, r) ∷ alias2real) =
    add_alias aliases r a >>= λ aliases'. add_alias_map aliases' alias2real

unfoldable pub has_alias : Aliases → Text → Bool
unfolding smap_has
has_alias aliases alias = smap_has (made aliases.mapping) alias

unfoldable pub resolve_alias : Aliases → Text → Text
unfolding smap_default
resolve_alias aliases alias = smap_default (made aliases.mapping) alias alias
