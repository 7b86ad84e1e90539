-- ===== src/Finder/Selection.antt =====
-- The matchers: what the two loops decide, and what building them from the settings twice changes.
use goutil.Prelude.{
  ◌≡◌, refl, ap, ◌∙◌, sym, arith, Bool, true, false, not, ◌&&◌, ◌||◌, List, [], ◌∷◌, ◌++◌,
  if◌then◌else◌,
}
use goutil.Text.{Text}
use goutil.Finder.{Elem, Matcher}
use goutil.Finder.Matchers.{any_of}
use goutil.Finder.Setup.{append_for}
use goutil.Finder.Walk.{is_nil, apply_matchers, apply_ex_matchers, included}

abbrev pub some_applies : List Matcher → Elem → Bool
some_applies fls el = any_of (λ f. f el) fls

-- Two lists of matchers that decide alike, as both loops of the search see them.
abbrev pub Alike : List Matcher → List Matcher → Type 0
Alike xs ys = ((el : Elem) → some_applies xs el ≡ some_applies ys el) × (is_nil xs ≡ is_nil ys)

any_of-append :
    {A : Type 0} (p : A → Bool) (xs ys : List A)
    → any_of p (xs ++ ys) ≡ (any_of p xs || any_of p ys)
unfolding any_of
any_of-append p [] ys = refl
any_of-append p (x ∷ xs) ys = ground (arith, any_of-append p xs ys)

is_nil-append : {A : Type 0} (xs : List A) (y : A) → is_nil (xs ++ y ∷ []) ≡ false
is_nil-append [] y = refl
is_nil-append (x ∷ xs) y = refl

or_false : (b : Bool) → (b || false) ≡ b
or_false true = refl
or_false false = refl

if_same : (b : Bool) → (if b then true else false) ≡ b
if_same true = refl
if_same false = refl

-- A matcher appended, or none.
abbrev maybe : Bool → Matcher → List Matcher → List Matcher
maybe b m fls = if b then fls ++ m ∷ [] else fls

append_for-maybe :
    (names : List Text) (matcher : List Text → Matcher) (fls : List Matcher)
    → append_for names matcher fls ≡ maybe (not (is_nil names)) (matcher names) fls
append_for-maybe [] matcher fls = refl
append_for-maybe (n ∷ ns) matcher fls = refl

any_of-maybe :
    (b : Bool) (m : Matcher) (fls : List Matcher) (el : Elem)
    → some_applies (maybe b m fls) el ≡ (some_applies fls el || (b && m el))
unfolding any_of
any_of-maybe true m fls el =
    any_of-append (λ f. f el) fls (m ∷ []) ∙ ap (λ b. some_applies fls el || b) (if_same (m el))
any_of-maybe false m fls el = sym (or_false (some_applies fls el))

or_absorb : (l n p : Bool) → ((((l || n) || p) || n) || p) ≡ ((l || n) || p)
or_absorb true n p = refl
or_absorb false true p = refl
or_absorb false false true = refl
or_absorb false false false = refl

module _ (b₁ b₂ : Bool) (m₁ m₂ : Matcher) where
  -- The matchers of two settings appended.
  abbrev built : List Matcher → List Matcher
  built fls = maybe b₂ m₂ (maybe b₁ m₁ fls)

  applies_built :
      (fls : List Matcher) (el : Elem)
      → some_applies (built fls) el ≡ ((some_applies fls el || (b₁ && m₁ el)) || (b₂ && m₂ el))
  applies_built fls el =
      any_of-maybe b₂ m₂ (maybe b₁ m₁ fls) el
      ∙ ap (λ b. b || (b₂ && m₂ el)) (any_of-maybe b₁ m₁ fls el)

  applies_twice :
      (fls : List Matcher) (el : Elem)
      → some_applies (built (built fls)) el ≡ some_applies (built fls) el
  applies_twice fls el =
      applies_built (built fls) el
      ∙ ap (λ b. (b || (b₁ && m₁ el)) || (b₂ && m₂ el)) (applies_built fls el)
      ∙ or_absorb (some_applies fls el) (b₁ && m₁ el) (b₂ && m₂ el)
      ∙ sym (applies_built fls el)

is_nil-built :
    (b₁ b₂ : Bool) (m₁ m₂ : Matcher) (fls : List Matcher)
    → is_nil (built b₁ b₂ m₁ m₂ (built b₁ b₂ m₁ m₂ fls)) ≡ is_nil (built b₁ b₂ m₁ m₂ fls)
is_nil-built b₁ true m₁ m₂ fls = is_nil-append _ m₂ ∙ sym (is_nil-append _ m₂)
is_nil-built true false m₁ m₂ fls = is_nil-append _ m₁ ∙ sym (is_nil-append _ m₁)
is_nil-built false false m₁ m₂ fls = refl

Alike-built :
    (b₁ b₂ : Bool) (m₁ m₂ : Matcher) (fls : List Matcher)
    → Alike (built b₁ b₂ m₁ m₂ (built b₁ b₂ m₁ m₂ fls)) (built b₁ b₂ m₁ m₂ fls)
Alike-built b₁ b₂ m₁ m₂ fls = (applies_twice b₁ b₂ m₁ m₂ fls, is_nil-built b₁ b₂ m₁ m₂ fls)

-- Two settings, applied twice.
pub Alike-append_for :
    (ns ps : List Text) (mn mp : List Text → Matcher) (fls : List Matcher)
    → Alike
        (append_for ps mp (append_for ns mn (append_for ps mp (append_for ns mn fls))))
        (append_for ps mp (append_for ns mn fls))
Alike-append_for ns ps mn mp fls =
    let e : (xs : List Matcher)
        → append_for ps mp (append_for ns mn xs)
          ≡ built (not (is_nil ns)) (not (is_nil ps)) (mn ns) (mp ps) xs =
      λ xs.
        append_for-maybe ps mp (append_for ns mn xs)
        ∙ ap (maybe (not (is_nil ps)) (mp ps)) (append_for-maybe ns mn xs) in
    rw (e fls, e (built (not (is_nil ns)) (not (is_nil ps)) (mn ns) (mp ps) fls))
      (Alike-built (not (is_nil ns)) (not (is_nil ps)) (mn ns) (mp ps) fls)

pub included-Alike :
    (el : Elem) (g g' o o' : List Matcher)
    → Alike g g'
    → Alike o o'
    → included el g o ≡ included el g' o'
unfolding included apply_matchers
included-Alike el g g' o o' (ga, gn) (oa, on) = rw (ga el, gn, oa el, on)

pub apply_ex_matchers-Alike :
    (el : Elem) (xs ys : List Matcher)
    → Alike xs ys
    → apply_ex_matchers el xs ≡ apply_ex_matchers el ys
unfolding apply_ex_matchers
apply_ex_matchers-Alike el xs ys (same, nils) = rw (same el)
