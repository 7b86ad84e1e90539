-- ===== src/Structs/AliasLaws.antt =====
-- structs/alias.go: what adding aliases gives.
use goutil.Prelude.{
  ◌≡◌, refl, sym, ap, ◌∙◌, arith, Bool, true, false, not, ◌&&◌, ◌||◌, List, [], ◌∷◌, map, Option,
  none, some, if◌then◌else◌, if_true, if_false, Bool-cases, inl, inr,
}
use goutil.Prelude.Outcome.{done, panics, ◌>>=◌, >>=_ext}
use goutil.Text.{Text, text_eq}
use goutil.Text.Laws.{text_eq_iff}
use goutil.Maputil.Values.{StringMap, lookup_string, put_string}
use goutil.Maputil.StringMaps.{smap_has, smap_default, found, or_text}
use goutil.Structs.AliasMap.{
  Aliases, made, accepts, add_alias, add_aliases, add_alias_map, resolve_alias,
}

lookup_string-put_string :
    (j k v : Text) (m : StringMap)
    → lookup_string j (put_string k v m) ≡ (if text_eq k j then some v else lookup_string j m)
unfolding lookup_string put_string
lookup_string-put_string j k v [] = refl
lookup_string-put_string j k v ((i, w) ∷ m) =
    ground
      (arith, text_eq_iff i k, text_eq_iff i j, text_eq_iff k j, lookup_string-put_string j k v m)

smap_has-put_string :
    (j k v : Text) (m : StringMap) → smap_has (put_string k v m) j ≡ (text_eq k j || smap_has m j)
unfolding smap_has
smap_has-put_string j k v m = elim (Bool-cases (text_eq k j)) [
  | inl e ↦
      ap found (lookup_string-put_string j k v m ∙ if_true _ _ e)
      ∙ sym (ap (λ b. b || smap_has m j) e)
  | inr e ↦
      ap found (lookup_string-put_string j k v m ∙ if_false _ _ e)
      ∙ sym (ap (λ b. b || smap_has m j) e)
]

smap_has-cons :
    (j k v : Text) (m : StringMap) → smap_has ((k, v) ∷ m) j ≡ (text_eq k j || smap_has m j)
unfolding smap_has lookup_string
smap_has-cons j k v m = elim (Bool-cases (text_eq k j)) [
  | inl e ↦ ap found (if_true _ _ e) ∙ sym (ap (λ b. b || smap_has m j) e)
  | inr e ↦ ap found (if_false _ _ e) ∙ sym (ap (λ b. b || smap_has m j) e)
]

text_eq_comm : (s t : Text) → text_eq s t ≡ text_eq t s
text_eq_comm s t = ground (arith, text_eq_iff s t, text_eq_iff t s)

-- The aliases can be added: the checker accepts each, none is there, and none comes twice.
abbrev pub fits : Option (Text → Bool) → StringMap → StringMap → Bool
fits checker m [] = true
fits checker m ((a, r) ∷ pairs) =
    accepts checker a && (not (smap_has m a) && (not (smap_has pairs a) && fits checker m pairs))

fits-put_string :
    (checker : Option (Text → Bool)) (a r : Text) (m pairs : StringMap)
    → fits checker (put_string a r m) pairs ≡ (not (smap_has pairs a) && fits checker m pairs)
fits-put_string checker a r m [] = unfold smap_has in unfold lookup_string in refl
fits-put_string checker a r m ((b, q) ∷ pairs) = ground (
  arith,
  smap_has-put_string b a r m,
  smap_has-cons a b q pairs,
  text_eq_comm a b,
  fits-put_string checker a r m pairs,
)

-- The name behind an alias, new or not.
abbrev pub resolved : StringMap → Aliases → Text → Text
resolved pairs aliases name = or_text (lookup_string name pairs) (resolve_alias aliases name)

abbrev with_alias : Aliases → Text → Text → Aliases
with_alias aliases real alias = record {
  mapping = some (put_string alias real (made aliases.mapping));
  checker = aliases.checker;
}

add_alias_if :
    (aliases : Aliases) (real alias : Text)
    → add_alias aliases real alias ≡ (
        if accepts aliases.checker alias && not (smap_has (made aliases.mapping) alias)
        then done (with_alias aliases real alias)
        else panics)
unfolding add_alias
add_alias_if aliases real alias = ground arith

or_text_if :
    (b : Bool) (v : Text) (o : Option Text) (d : Text)
    → or_text (if b then some v else o) d ≡ (if b then v else or_text o d)
or_text_if true v o d = refl
or_text_if false v o d = refl

resolve_alias-with_alias :
    (aliases : Aliases) (real alias name : Text)
    → resolve_alias (with_alias aliases real alias) name
      ≡ (if text_eq alias name then real else resolve_alias aliases name)
unfolding resolve_alias smap_default
resolve_alias-with_alias aliases real alias name =
    let e = lookup_string-put_string name alias real (made aliases.mapping) in
    ap (λ o. or_text o name) e
    ∙ or_text_if (text_eq alias name) real (lookup_string name (made aliases.mapping)) name

found-none : (o : Option Text) → found o ≡ false → o ≡ none
found-none none h = refl
found-none (some v) h = cc h

-- A new alias that is not among the next ones is found behind them.
resolved-with_alias :
    (aliases : Aliases) (a r : Text) (pairs : StringMap) (name : Text)
    → smap_has pairs a ≡ false
    → resolved pairs (with_alias aliases r a) name ≡ resolved ((a, r) ∷ pairs) aliases name
unfolding smap_has lookup_string
resolved-with_alias aliases a r pairs name h =
    let new = resolve_alias-with_alias aliases r a name in
    elim (Bool-cases (text_eq a name)) [
      | inl e ↦
          let missing : lookup_string name pairs ≡ none =
            found-none _ (ap (λ n. smap_has pairs n) (sym ((text_eq_iff a name).0 e)) ∙ h) in
          ap (λ o. or_text o (resolve_alias (with_alias aliases r a) name)) missing
          ∙ new
          ∙ if_true _ _ e
          ∙ sym (ap (λ o. or_text o (resolve_alias aliases name)) (if_true _ _ e))
      | inr e ↦
          ap (or_text (lookup_string name pairs)) (new ∙ if_false _ _ e)
          ∙ sym (ap (λ o. or_text o (resolve_alias aliases name)) (if_false _ _ e))
    ]

not_first : (a b : Bool) → not a && b ≡ true → a ≡ false
not_first a b h = ground arith

add_alias_map-resolved :
    (aliases : Aliases) (pairs : StringMap) (name : Text)
    → (add_alias_map aliases pairs >>= λ aliases'. done (resolve_alias aliases' name)) ≡ (
        if fits aliases.checker (made aliases.mapping) pairs
        then done (resolved pairs aliases name)
        else panics)
unfolding add_alias_map
add_alias_map-resolved aliases [] name = unfold lookup_string in refl
add_alias_map-resolved aliases ((a, r) ∷ pairs) name =
    let m = made aliases.mapping in
    let free = accepts aliases.checker a && not (smap_has m a) in
    let next = not (smap_has pairs a) && fits aliases.checker m pairs in
    let parts : fits aliases.checker m ((a, r) ∷ pairs) ≡ (free && next) = ground arith in
    let after = add_alias_map-resolved (with_alias aliases r a) pairs name in
    let behind = λ (aliases' : Aliases). add_alias_map aliases' pairs in
    let name_of = λ (aliases' : Aliases). done (resolve_alias aliases' name) in
    elim (Bool-cases free) [
      | inr e ↦
          ap (λ o. (o >>= behind) >>= name_of) (add_alias_if aliases r a ∙ if_false _ _ e)
          ∙ sym (if_false _ _ (parts ∙ ap (λ b. b && next) e))
      | inl e ↦
          ap (λ o. (o >>= behind) >>= name_of) (add_alias_if aliases r a ∙ if_true _ _ e)
          ∙ after
          ∙ elim (Bool-cases next) [
            | inl h ↦
                if_true _ _ (fits-put_string aliases.checker a r m pairs ∙ h)
                ∙ ap done (resolved-with_alias aliases a r pairs name (not_first _ _ h))
                ∙ sym (if_true _ _ (parts ∙ ap (λ b. b && next) e ∙ h))
            | inr h ↦
                if_false _ _ (fits-put_string aliases.checker a r m pairs ∙ h)
                ∙ sym (if_false _ _ (parts ∙ ap (λ b. b && next) e ∙ h))
          ]
    ]

add_aliases-add_alias_map :
    (aliases : Aliases) (real : Text) (names : List Text)
    → add_aliases aliases real names ≡ add_alias_map aliases (map (λ n. (n, real)) names)
unfolding add_aliases add_alias_map
add_aliases-add_alias_map aliases real [] = refl
add_aliases-add_alias_map aliases real (a ∷ names) =
    >>=_ext (add_alias aliases real a) (λ new. add_aliases-add_alias_map new real names)

-- Several aliases are added without a panic exactly if the checker, where there is one, accepts each,
-- none is an alias already and none comes twice; then each new alias is resolved to its name, and
-- any other text as before. AddAliases adds its aliases as AddAliasMap adds them with the one name.
pub add_alias_map-resolve_alias :
    (aliases : Aliases) (pairs : StringMap) (real : Text) (names : List Text) (name : Text)
    → ((add_alias_map aliases pairs >>= λ new. done (resolve_alias new name)) ≡ (
        if fits aliases.checker (made aliases.mapping) pairs
        then done (resolved pairs aliases name)
        else panics))
      × (add_aliases aliases real names ≡ add_alias_map aliases (map (λ n. (n, real)) names))
add_alias_map-resolve_alias aliases pairs real names name =
    (add_alias_map-resolved aliases pairs name, add_aliases-add_alias_map aliases real names)
