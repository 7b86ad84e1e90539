-- ===== src/Arrutil/Process/Unique.antt =====
-- `Contains`, `Unique`, `StringsUnique`, `IndexOf` and `IsSubList` of arrutil.
use goutil.Prelude.{
  ℕ, suc, ◌+◌, ◌≡◌, refl, sym, ap, ◌∙◌, arith, ◌↔◌, ◌⊎◌, inl, inr, Bool, true, false, not, ◌||◌,
  ◌&&◌, List, [], ◌∷◌, ◌++◌, append-nil, append_assoc, some, Bool-cases, if◌then◌else◌, Eq,
  get_elem?, keep_if, take,
}
use goutil.Prelude.Int.{pos, negsuc}
use goutil.Arrutil.Process.{
  contains, is_sub_list, unique_loop, unique, strings_unique_loop, strings_unique, index_of_loop,
  index_of, filter_loop,
}

module _ {ℓ} {A : Type ℓ} where
  pub filter_loop-keep_if :
      (fn : A → Bool) (ls result : List A) → filter_loop fn ls result ≡ result ++ keep_if fn ls
  unfolding filter_loop
  filter_loop-keep_if fn [] result = sym (append-nil result)
  filter_loop-keep_if fn (v ∷ ls) result = ground (
    arith,
    filter_loop-keep_if fn ls (result ++ v ∷ []),
    filter_loop-keep_if fn ls result,
    append_assoc result (v ∷ []) (keep_if fn ls),
  )

module _ {ℓ} {A : Type ℓ} ⦃e : Eq A⦄ where
  contains-append :
      (xs ys : List A) (a : A) → contains (xs ++ ys) a ≡ (contains xs a || contains ys a)
  unfolding contains
  contains-append [] ys a = refl
  contains-append (x ∷ xs) ys a = ground (arith, contains-append xs ys a)

  beq_refl : (a : A) → e.beq a a ≡ true
  beq_refl a = (e.beq_iff a a).1 refl

  -- Each item stands in the list once.
  abbrev pub IsDistinct : List A → Type 0
  IsDistinct [] = Unit
  IsDistinct (x ∷ xs) = (contains xs x ≡ false) × IsDistinct xs

  -- The first occurrence of each item that is not among those seen, in order: what deduplication
  -- is to return.
  abbrev pub first_occurrences : List A → List A → List A
  first_occurrences seen [] = []
  first_occurrences seen (x ∷ xs) =
      if contains seen x then first_occurrences seen xs else x ∷ first_occurrences (x ∷ seen) xs

  -- Two lists of seen items that answer alike give the same first occurrences.
  first_occurrences_cong :
      (s t xs : List A)
      → ((a : A) → contains s a ≡ contains t a)
      → first_occurrences s xs ≡ first_occurrences t xs
  unfolding contains
  first_occurrences_cong s t [] h = refl
  first_occurrences_cong s t (x ∷ xs) h =
      let skip = first_occurrences_cong s t xs h in
      let take_it = first_occurrences_cong (x ∷ s) (x ∷ t) xs (λ a. ground (arith, h a)) in
      ground (arith, h x, skip, take_it)

  unique_loop-first_occurrences :
      (ls val_map uni : List A) → unique_loop ls val_map uni ≡ uni ++ first_occurrences val_map ls
  unfolding unique_loop
  unique_loop-first_occurrences [] val_map uni = sym (append-nil uni)
  unique_loop-first_occurrences (t ∷ ls) val_map uni = elim (Bool-cases (contains val_map t)) [
    | inl k ↦ rw k (unique_loop-first_occurrences ls val_map uni)
    | inr k ↦ rw k (
        unique_loop-first_occurrences ls (t ∷ val_map) (uni ++ t ∷ [])
        ∙ append_assoc uni (t ∷ []) _)
  ]

  unique-first_occurrences : (ls : List A) → unique ls ≡ first_occurrences [] ls
  unfolding unique contains
  unique-first_occurrences [] = refl
  unique-first_occurrences (x ∷ []) = refl
  unique-first_occurrences (x ∷ y ∷ ls) =
      ground (arith, unique_loop-first_occurrences (x ∷ y ∷ ls) [] [])

  strings_unique_loop-first_occurrences :
      (ss uni : List A) → strings_unique_loop ss uni ≡ uni ++ first_occurrences uni ss
  unfolding strings_unique_loop
  strings_unique_loop-first_occurrences [] uni = sym (append-nil uni)
  strings_unique_loop-first_occurrences (s ∷ ss) uni = elim (Bool-cases (contains uni s)) [
    | inl k ↦ rw k (strings_unique_loop-first_occurrences ss uni)
    | inr k ↦
        let again =
          first_occurrences_cong (uni ++ s ∷ []) (s ∷ uni) ss
            (λ a. contains-append uni (s ∷ []) a ∙ unfold contains in ground arith) in
        rw k (
          strings_unique_loop-first_occurrences ss (uni ++ s ∷ [])
          ∙ append_assoc uni (s ∷ []) _
          ∙ ap (λ r. uni ++ s ∷ r) again)
  ]

  -- `Unique`, which keeps a map of the items seen, and `StringsUnique`, which searches its output,
  -- are one function.
  pub unique-strings_unique : (ls : List A) → unique ls ≡ strings_unique ls
  unfolding strings_unique
  unique-strings_unique ls =
      unique-first_occurrences ls ∙ sym (strings_unique_loop-first_occurrences ls [])

  contains-first_occurrences :
      (seen ls : List A) (a : A)
      → contains (first_occurrences seen ls) a ≡ (not (contains seen a) && contains ls a)
  unfolding contains
  contains-first_occurrences seen [] a = ground arith
  contains-first_occurrences seen (x ∷ ls) a =
      let swap : e.beq x a ≡ true → x ≡ a = (e.beq_iff x a).0 in
      elim (Bool-cases (e.beq x a)) [
        | inl same ↦ ground (
          arith,
          ap (contains seen) (swap same),
          contains-first_occurrences seen ls a,
          contains-first_occurrences (x ∷ seen) ls a,
        )
        | inr other ↦ ground (
          arith,
          other,
          contains-first_occurrences seen ls a,
          contains-first_occurrences (x ∷ seen) ls a,
        )
      ]

  first_occurrences-IsDistinct : (seen ls : List A) → IsDistinct (first_occurrences seen ls)
  first_occurrences-IsDistinct seen [] = tt
  first_occurrences-IsDistinct seen (x ∷ ls) = elim (Bool-cases (contains seen x)) [
    | inl k ↦ rw k (first_occurrences-IsDistinct seen ls)
    | inr k ↦ rw k (
      contains-first_occurrences (x ∷ seen) ls x ∙ unfold contains in rw (beq_refl x),
      first_occurrences-IsDistinct (x ∷ seen) ls,
    )
  ]

  -- `Unique` returns each item of the slice once: no item stands twice in the result, and a value is
  -- in the result exactly when it is in the slice.
  pub unique-IsDistinct :
      (ls : List A) → IsDistinct (unique ls) × ((a : A) → contains (unique ls) a ≡ contains ls a)
  unique-IsDistinct ls = rw unique-first_occurrences (
    first_occurrences-IsDistinct [] ls,
    λ a. contains-first_occurrences [] ls a ∙ unfold contains in refl,
  )

  -- `Unique` returns each item of the slice once: no item stands twice in the result, and a value is
  -- in the result exactly when it is in the slice. `StringsUnique`, which searches its output where
  -- `Unique` keeps a map of the items seen, returns the same.
  pub unique-members :
      (ls : List A)
      → IsDistinct (unique ls)
        × ((a : A) → contains (unique ls) a ≡ contains ls a)
        × (unique ls ≡ strings_unique ls)
  unique-members ls =
      let (distinct, same) = unique-IsDistinct ls in (distinct, same, unique-strings_unique ls)

  index_of_loop-cases :
      (val : A) (ls : List A) (k : ℕ)
      → ((i : ℕ) × (x : A) × (index_of_loop val ls k ≡ pos (k + i))
          × (get_elem? ls i ≡ some x)
          × (e.beq x val ≡ true)
          × (contains (take i ls) val ≡ false))
        ⊎ ((index_of_loop val ls k ≡ negsuc 0) × (contains ls val ≡ false))
  unfolding index_of_loop contains
  index_of_loop-cases val [] k = inr (refl, refl)
  index_of_loop-cases val (v ∷ ls) k = elim (Bool-cases (e.beq v val)) [
    | inl t ↦ inl (0, v, rw t (ap pos (omega arith)), refl, t, refl)
    | inr t ↦ elim (index_of_loop-cases val ls (k + 1)) [
      | inl (i, x, at, g, m, before) ↦
          inl (suc i, x, rw (t, at) (ap pos (omega arith)), g, m, rw t before)
      | inr (at, absent) ↦ inr (rw t at, rw t absent)
    ]
  ]

  -- `IndexOf` is the index of the first item that equals the value, or -1 where the slice does not
  -- contain it.
  pub index_of-first :
      (val : A) (ls : List A)
      → ((i : ℕ) × (x : A) × (index_of val ls ≡ pos i)
          × (get_elem? ls i ≡ some x)
          × (e.beq x val ≡ true)
          × (contains (take i ls) val ≡ false))
        ⊎ ((index_of val ls ≡ negsuc 0) × (contains ls val ≡ false))
  unfolding index_of
  index_of-first val ls = elim (index_of_loop-cases val ls 0) [
    | inl (i, x, at, g, m, before) ↦ inl (i, x, at ∙ ap pos (omega arith), g, m, before)
    | inr absent ↦ inr absent
  ]

  -- `IsSubList` holds exactly when every value that the first slice contains is in the second.
  pub is_sub_list_iff :
      (values ls : List A)
      → (is_sub_list values ls ≡ true) ↔ ((a : A) → contains values a ≡ true → contains ls a ≡ true)
  unfolding is_sub_list contains
  is_sub_list_iff [] ls = (λ h a k. cc, λ h. refl)
  is_sub_list_iff (v ∷ values) ls = (
    λ h a k. elim (Bool-cases (e.beq v a)) [
      | inl same ↦ ground (arith, ap (contains ls) ((e.beq_iff v a).0 same))
      | inr other ↦ (is_sub_list_iff values ls).0 (ground arith) a (rw other at k)
    ],
    λ h.
        let head = h v (rw (beq_refl v)) in
        let rest = (is_sub_list_iff values ls).1 (λ a k. h a (ground (arith, k))) in
        ground (arith, head, rest),
  )
