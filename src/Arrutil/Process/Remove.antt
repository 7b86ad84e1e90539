-- ===== src/Arrutil/Process/Remove.antt =====
-- `Remove` of arrutil takes out one value.
use goutil.Prelude.{
  ℕ, suc, ◌+◌, ◌≡◌, ap, arith, inl, inr, Bool, true, false, not, ◌&&◌, List, [], ◌∷◌, Bool-cases,
  if◌then◌else◌, Eq, keep_if, length,
}
use goutil.Arrutil.Process.{contains, filter_slice, remove}
use goutil.Arrutil.Process.Unique.{filter_loop-keep_if}

module _ {ℓ} {A : Type ℓ} ⦃e : Eq A⦄ where
  contains-keep_if :
      (val : A) (ls : List A) (a : A)
      → contains (keep_if (λ el. not (e.beq el val)) ls) a ≡ (not (e.beq a val) && contains ls a)
  unfolding contains
  contains-keep_if val [] a = ground arith
  contains-keep_if val (x ∷ ls) a = elim (Bool-cases (e.beq x a)) [
    | inl same ↦
        ground
          (arith, ap (λ (y : A). e.beq y val) ((e.beq_iff x a).0 same), contains-keep_if val ls a)
    | inr other ↦ ground (arith, other, contains-keep_if val ls a)
  ]

  -- How often a value stands in a slice.
  abbrev pub count : A → List A → ℕ
  count val [] = 0
  count val (x ∷ xs) = if e.beq x val then suc (count val xs) else count val xs

  -- The second list is the first without the items that equal the value, in the same order.
  pub data IsWithout (val : A) : List A → List A → Type ℓ where
    nothing : IsWithout val [] []
    taken_out :
        {x : A} {xs ys : List A}
        → e.beq x val ≡ true
        → IsWithout val xs ys
        → IsWithout val (x ∷ xs) ys
    stays :
        {x : A} {xs ys : List A}
        → e.beq x val ≡ false
        → IsWithout val xs ys
        → IsWithout val (x ∷ xs) (x ∷ ys)

  keep_if-IsWithout :
      (val : A) (ls : List A) → IsWithout val ls (keep_if (λ el. not (e.beq el val)) ls)
  keep_if-IsWithout val [] = nothing
  keep_if-IsWithout val (x ∷ ls) = elim (Bool-cases (e.beq x val)) [
    | inl same ↦ rw same (taken_out same (keep_if-IsWithout val ls))
    | inr other ↦ rw other (stays other (keep_if-IsWithout val ls))
  ]

  length-keep_if :
      (val : A) (ls : List A)
      → length (keep_if (λ el. not (e.beq el val)) ls) + count val ls ≡ length ls
  length-keep_if val [] = omega arith
  length-keep_if val (x ∷ ls) = ground (arith, length-keep_if val ls)

  -- `Remove` takes out every item that equals the value, and no other: the items that stay are in
  -- their order and as often as before, the result is shorter by as many items as equal the value,
  -- and a value is contained in it exactly when it was before and is not the one removed. The zero
  -- test is not used.
  pub remove-IsWithout :
      (is_zero : A → Bool) (ls : List A) (val : A)
      → IsWithout val ls (remove is_zero ls val)
        × (length (remove is_zero ls val) + count val ls ≡ length ls)
        × ((a : A) → contains (remove is_zero ls val) a ≡ (not (e.beq a val) && contains ls a))
  unfolding remove filter_slice
  remove-IsWithout is_zero ls val =
      let kept = filter_loop-keep_if (λ el. not (e.beq el val)) ls [] in
      rw kept (keep_if-IsWithout val ls, length-keep_if val ls, contains-keep_if val ls)
