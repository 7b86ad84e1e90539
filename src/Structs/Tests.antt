-- ===== src/Structs/Tests.antt =====
-- The aliases run on concrete values.
use goutil.Prelude.{◌≡◌, refl, Bool, not, [], ◌∷◌, none, some, if◌then◌else◌, map}
use goutil.Prelude.Outcome.{done, panics, ◌>>=◌}
use goutil.Text.{Text, codes, text_eq}
use goutil.Maputil.Values.{StringMap}
use goutil.Structs.AliasMap.{
  Aliases, new_aliases, made, add_alias, add_aliases, add_alias_map, resolve_alias, has_alias,
}
use goutil.Structs.AliasLaws.{fits, resolved, add_alias_map-resolve_alias}

abbrev not_empty : Text → Bool
not_empty s = not (text_eq s [])

abbrev start : Aliases
start = record { mapping = some ((codes "h", codes "help") ∷ []); checker = some not_empty }

abbrev two_pairs : StringMap
two_pairs = (codes "v", codes "version") ∷ (codes "V", codes "version") ∷ []

used_twice : add_alias start (codes "host") (codes "h") ≡ panics
unfolding add_alias text_eq
used_twice = refl

checked_alias : has_alias (new_aliases none) (codes "h") ≡ Bool.false
unfolding has_alias new_aliases
checked_alias = refl

add_alias_map-resolve_alias_example :
    ((add_alias_map start two_pairs >>= λ new. done (resolve_alias new (codes "V"))) ≡ (
      if fits start.checker (made start.mapping) two_pairs
      then done (resolved two_pairs start (codes "V"))
      else panics))
    × (add_aliases start (codes "version") (codes "v" ∷ [])
        ≡ add_alias_map start (map (λ n. (n, codes "version")) (codes "v" ∷ [])))
add_alias_map-resolve_alias_example =
    add_alias_map-resolve_alias start two_pairs (codes "version") (codes "v" ∷ []) (codes "V")
