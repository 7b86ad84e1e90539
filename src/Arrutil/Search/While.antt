-- ===== src/Arrutil/Search/While.antt =====
-- `TakeWhile`, `ExceptWhile`, `Find` and `FindOrDefault` of arrutil/collection.go.
use mathlib.Core.List.{Perm, perm_middle}
use mathlib.Core.List.Perm
use goutil.Prelude.{
  ◌≡◌, refl, sym, ap, arith, Bool, true, not, ◌⊎◌, inl, inr, List, [], ◌∷◌, ◌++◌, append-nil,
  append_assoc, none, some, Bool-cases, keep_if,
}
use goutil.Arrutil.Search.{
  element_not_found, find, find_or_default, take_while_loop, take_while, except_while_loop,
  except_while,
}

module _ {ℓ} {A : Type ℓ} where
  take_while_loop-keep_if :
      (fn : A → Bool) (xs result : List A) → take_while_loop fn xs result ≡ result ++ keep_if fn xs
  unfolding take_while_loop
  take_while_loop-keep_if fn [] result = sym (append-nil result)
  take_while_loop-keep_if fn (v ∷ xs) result = ground (
    arith,
    take_while_loop-keep_if fn xs (result ++ v ∷ []),
    take_while_loop-keep_if fn xs result,
    append_assoc result (v ∷ []) (keep_if fn xs),
  )

  except_while_loop-keep_if :
      (fn : A → Bool) (xs result : List A)
      → except_while_loop fn xs result ≡ result ++ keep_if (λ x. not (fn x)) xs
  unfolding except_while_loop
  except_while_loop-keep_if fn [] result = sym (append-nil result)
  except_while_loop-keep_if fn (v ∷ xs) result = ground (
    arith,
    except_while_loop-keep_if fn xs (result ++ v ∷ []),
    except_while_loop-keep_if fn xs result,
    append_assoc result (v ∷ []) (keep_if (λ x. not (fn x)) xs),
  )

  partition_perm :
      (fn : A → Bool) (xs : List A) → Perm (keep_if fn xs ++ keep_if (λ x. not (fn x)) xs) xs
  partition_perm fn [] = Perm.refl []
  partition_perm fn (x ∷ xs) = elim (Bool-cases (fn x)) [
    | inl t ↦ rw t (Perm.cons x (partition_perm fn xs))
    | inr t ↦ rw t (Perm.trans (perm_middle _ _) (Perm.cons x (partition_perm fn xs)))
  ]

  -- `TakeWhile` and `ExceptWhile` with one predicate split a slice in two: each keeps the order, and
  -- together they hold each item of the slice as often as it occurs. Neither stops at an item.
  pub take_while-except_while :
      (fn : A → Bool) (xs : List A)
      → (take_while xs fn ≡ keep_if fn xs)
        × (except_while xs fn ≡ keep_if (λ x. not (fn x)) xs)
        × Perm (take_while xs fn ++ except_while xs fn) xs
  unfolding take_while except_while
  take_while-except_while fn xs = (
    take_while_loop-keep_if fn xs [],
    except_while_loop-keep_if fn xs [],
    rw (take_while_loop-keep_if, except_while_loop-keep_if) (partition_perm fn xs),
  )

  -- Where an item passes, `Find` returns the first one and no error, and `FindOrDefault` returns it;
  -- where none does, `Find` returns the zero value and an error, and `FindOrDefault` the default.
  pub find-find_or_default :
      (fn : A → Bool) (source : List A) (d z : A)
      → ((before after : List A) × (x : A) × (source ≡ before ++ x ∷ after)
          × (keep_if fn before ≡ [])
          × (fn x ≡ true)
          × (find source fn z ≡ (x, none))
          × (find_or_default source fn d z ≡ x))
        ⊎ ((keep_if fn source ≡ [])
            × (find source fn z ≡ (z, some element_not_found))
            × (find_or_default source fn d z ≡ d))
  unfolding find find_or_default
  find-find_or_default fn [] d z = inr (refl, refl, refl)
  find-find_or_default fn (s ∷ source) d z = elim (Bool-cases (fn s)) [
    | inl t ↦ inl ([], source, s, refl, refl, t, rw t, ground arith)
    | inr t ↦ elim (find-find_or_default fn source d z) [
      | inl (before, after, x, split, skipped, passes, found, item) ↦
          inl (
            s ∷ before,
            after,
            x,
            ap (◌∷◌ s) split,
            rw (t) skipped,
            passes,
            rw t found,
            ground arith,
          )
      | inr (no_item, missing, default) ↦ inr (rw t no_item, rw t missing, ground arith)
    ]
  ]
