-- ===== src/Arrutil/Process/Accessors.antt =====
-- `First` and `Last` of arrutil/list.go, and `Map` and `Filter` of process.go.
use mathlib.Core.List.{reverse, filter_map}
use goutil.Prelude.{
  ◌-◌, ◌≡◌, refl, sym, ap, ◌∙◌, arith, Bool, not, List, [], ◌∷◌, ◌++◌, append-nil, append_assoc,
  Option, none, some, inl, inr, Bool-cases, if◌then◌else◌, length, get_elem?, get_elem?-some,
  keep_if,
}
use goutil.Prelude.Outcome.{done}
use goutil.Arrutil.Search.{index-done}
use goutil.Arrutil.Process.{first, last, map_loop, map_slice, filter_slice}
use goutil.Arrutil.Process.Reverse.{get_elem?-reverse}
use goutil.Arrutil.Process.Unique.{filter_loop-keep_if}

module _ {ℓ} {A : Type ℓ} where
  first_index : (ls def : List A) {x : A} → get_elem? ls 0 ≡ some x → first ls def ≡ done x
  unfolding first
  first_index [] def h = cc
  first_index (y ∷ ls) def h = ground arith

  -- `Last` of a slice is `First` of the reversed slice, with the same default values: the item at the
  -- other end, or the first default value, or a panic where there is neither.
  pub last-first-reverse : (ls def : List A) → last ls def ≡ first (reverse ls) def
  unfolding last first
  last-first-reverse [] [] = refl
  last-first-reverse [] (d ∷ def) = refl
  last-first-reverse (x ∷ ls) def =
      let n = length (x ∷ ls) in
      let (y, g) = get_elem?-some (x ∷ ls) (n - 1) (omega arith) in
      let front = get_elem?-reverse (x ∷ ls) 0 (omega arith) in
      let e : n - 1 - 0 ≡ n - 1 = omega arith in
      index-done (x ∷ ls) (n - 1) g
      ∙ sym (first_index (reverse (x ∷ ls)) def (front ∙ ap (get_elem? (x ∷ ls)) e ∙ g))

  -- The filter that `Filter` applies: the first argument unless it is missing or nil.
  abbrev pub chosen : (A → Bool) → List (Option (A → Bool)) → A → Bool
  chosen is_zero (some fn ∷ rest) el = fn el
  chosen is_zero (none ∷ rest) el = not (is_zero el)
  chosen is_zero [] el = not (is_zero el)

  -- `Filter` keeps, in their order, the items that pass its first filter, or that are not zero where
  -- no filter is given or the first is nil.
  pub filter_slice-keep_if :
      (is_zero : A → Bool) (ls : List A) (filters : List (Option (A → Bool)))
      → filter_slice is_zero ls filters ≡ keep_if (chosen is_zero filters) ls
  unfolding filter_slice
  filter_slice-keep_if is_zero ls (some fn ∷ rest) = filter_loop-keep_if fn ls []
  filter_slice-keep_if is_zero ls (none ∷ rest) = filter_loop-keep_if _ ls []
  filter_slice-keep_if is_zero ls [] = filter_loop-keep_if _ ls []

  module _ {κ} {B : Type κ} (map_fn : A → B × Bool) where
    -- What the map function finds.
    abbrev pub target? : A → Option B
    target? a = let (v, ok) = map_fn a in if ok then some v else none

    map_loop-filter_map :
        (ls : List A) (out : List B) → map_loop map_fn ls out ≡ out ++ filter_map target? ls
    unfolding map_loop filter_map
    map_loop-filter_map [] out = sym (append-nil out)
    map_loop-filter_map (a ∷ ls) out = elim (Bool-cases (map_fn a).1) [
      | inl t ↦ rw t (
          map_loop-filter_map ls (out ++ (map_fn a).0 ∷ [])
          ∙ append_assoc out ((map_fn a).0 ∷ []) _)
      | inr t ↦ rw t (map_loop-filter_map ls out)
    ]

    -- `Map` returns the targets that the map function finds, in the order of the items.
    pub map_slice-filter_map : (ls : List A) → map_slice ls map_fn ≡ filter_map target? ls
    unfolding map_slice
    map_slice-filter_map ls = map_loop-filter_map ls []
