-- ===== src/Arrutil/Search/Sets.antt =====
-- The set operations of arrutil/collection.go against filters, whatever the comparer does.
use mathlib.Core.List.{Perm, perm_append_comm}
use mathlib.Core.List.Perm
use goutil.Prelude.{
  ℕ, zero, suc, ◌+◌, ◌≤◌, ◌≡◌, refl, sym, arith, Bool, false, not, inl, inr, ap, List, [], ◌∷◌,
  ◌++◌, append-nil, append_assoc, Bool-cases, length, get_elem?-some, drop, drop_step, drop-length,
  keep_if, keep_if_all, ltb, if◌then◌else◌,
}
use goutil.Prelude.Int.{ℤ}
use goutil.Prelude.Outcome.{done}
use goutil.Arrutil.Search.{
  index-done, clone_slice, append_missing, append_found, excepts_loop, excepts, intersects_loop,
  intersects, union, differences_side, differences_loop, differences,
}
use goutil.Arrutil.Search.Twoway.{has, twoway_search-sign}

module _ {ℓ} {A : Type ℓ} (fn : A → A → ℤ) where
  abbrev pub missing_in : List A → A → Bool
  missing_in second s = not (has fn s second)

  append_missing_lem :
      (second : List A) (s : A) (result : List A)
      → append_missing fn second s result
        ≡ done (if missing_in second s then result ++ s ∷ [] else result)
  unfolding append_missing
  append_missing_lem second s result =
      let (i, e, found, sign) = twoway_search-sign fn s second in rw (found, sign)

  append_found_lem :
      (second : List A) (s : A) (result : List A)
      → append_found fn second s result
        ≡ done (if missing_in second s then result else result ++ s ∷ [])
  unfolding append_found
  append_found_lem second s result =
      let (i, e, found, sign) = twoway_search-sign fn s second in rw (found, sign)

  excepts_loop-keep_if :
      (second first result : List A)
      → excepts_loop fn second first result ≡ done (result ++ keep_if (missing_in second) first)
  unfolding excepts_loop
  excepts_loop-keep_if second [] result = rw append-nil
  excepts_loop-keep_if second (s ∷ first) result =
      rw append_missing_lem (elim (Bool-cases (missing_in second s)) [
        | inl t ↦
            rw (t, excepts_loop-keep_if second first (result ++ s ∷ []))
              (ap done (append_assoc result (s ∷ []) _))
        | inr t ↦ rw (t, excepts_loop-keep_if second first result)
      ])

  intersects_loop-keep_if :
      (second first result : List A)
      → intersects_loop fn second first result
        ≡ done (result ++ keep_if (λ s. has fn s second) first)
  unfolding intersects_loop
  intersects_loop-keep_if second [] result = rw append-nil
  intersects_loop-keep_if second (s ∷ first) result =
      rw append_found_lem (elim (Bool-cases (has fn s second)) [
        | inl t ↦
            rw (t, intersects_loop-keep_if second first (result ++ s ∷ []))
              (ap done (append_assoc result (s ∷ []) _))
        | inr t ↦ rw (t, intersects_loop-keep_if second first result)
      ])

  -- `Excepts` keeps exactly the items of the first slice that compare equal to none of the second,
  -- in their order, and does not panic.
  pub excepts-keep_if :
      (first second : List A) → excepts first second fn ≡ done (keep_if (missing_in second) first)
  unfolding excepts clone_slice
  excepts-keep_if [] second = refl
  excepts-keep_if (x ∷ first) [] = ap done (sym (keep_if_all _ (x ∷ first) (λ z. refl)))
  excepts-keep_if (x ∷ first) (y ∷ second) = excepts_loop-keep_if (y ∷ second) (x ∷ first) []

  keep_if_none : (p : A → Bool) (xs : List A) → ((x : A) → p x ≡ false) → keep_if p xs ≡ []
  keep_if_none p [] h = refl
  keep_if_none p (x ∷ xs) h = ground (arith, h x, keep_if_none p xs h)

  -- `Intersects` keeps exactly the items of the first slice that compare equal to some item of the
  -- second, in their order, and does not panic.
  pub intersects-keep_if :
      (first second : List A)
      → intersects first second fn ≡ done (keep_if (λ s. has fn s second) first)
  unfolding intersects
  intersects-keep_if [] second = refl
  intersects-keep_if (x ∷ first) [] = ap done (sym (keep_if_none _ (x ∷ first) (λ z. refl)))
  intersects-keep_if (x ∷ first) (y ∷ second) = intersects_loop-keep_if (y ∷ second) (x ∷ first) []

  -- `Union` is the first slice, then the items of the second that compare equal to none of the first.
  pub union-keep_if :
      (first second : List A)
      → union first second fn ≡ done (first ++ keep_if (missing_in first) second)
  unfolding union clone_slice
  union-keep_if [] second = ap done (sym (keep_if_all _ second (λ z. refl)))
  union-keep_if (x ∷ first) second = rw excepts-keep_if

  -- `Excepts` keeps exactly the items of the first slice that compare equal to none of the second,
  -- `Intersects` those that compare equal to some item of the second, both in their order; `Union` is
  -- the first slice and then the items of the second that compare equal to none of the first. None
  -- of them panics.
  pub set_operations-keep_if :
      (first second : List A)
      → (excepts first second fn ≡ done (keep_if (missing_in second) first))
        × (intersects first second fn ≡ done (keep_if (λ s. has fn s second) first))
        × (union first second fn ≡ done (first ++ keep_if (missing_in first) second))
  set_operations-keep_if first second =
      (excepts-keep_if first second, intersects-keep_if first second, union-keep_if first second)

  -- One side of a round adds the item at index `i`, if it is there and missing in the other slice.
  differences_side_lem :
      (own other : List A) (i : ℕ) (result : List A)
      → (added : List A) × (differences_side fn own other i result ≡ done (result ++ added))
        × (keep_if (missing_in other) (drop i own)
            ≡ added ++ keep_if (missing_in other) (drop (suc i) own))
  unfolding differences_side
  differences_side_lem own other i result = elim (Bool-cases (ltb i (length own))) [
    | inr over ↦ (
      [],
      rw over (ap done (sym (append-nil result))),
      rw (drop-length own i (ground arith), drop-length own (suc i) (ground arith)),
    )
    | inl inside ↦
        let (x, g) = get_elem?-some own i (ground arith) in
        elim (Bool-cases (missing_in other x)) [
          | inl m ↦ (
            x ∷ [],
            rw (inside, index-done own i g, append_missing_lem, m),
            rw (drop_step own i x g, m),
          )
          | inr m ↦ (
            [],
            rw (inside, index-done own i g, append_missing_lem, m)
                (ap done (sym (append-nil result))),
            rw (drop_step own i x g, m),
          )
        ]
  ]

  -- What `Differences` is to return: each slice without what is in the other.
  abbrev pub both_missing : List A → List A → List A
  both_missing first second = keep_if (missing_in second) first ++ keep_if (missing_in first) second

  regroup_perm :
      (r a b u v : List A) → Perm (((r ++ a) ++ b) ++ (u ++ v)) (r ++ ((a ++ u) ++ (b ++ v)))
  regroup_perm r a b u v = simp append_assoc (
      Perm.append (Perm.refl r) (
        Perm.append (Perm.refl a) (
          rw (← append_assoc b u v, ← append_assoc u b v)
            (Perm.append (perm_append_comm b u) (Perm.refl v)))))

  differences_loop-perm :
      (first second : List A) (rounds i : ℕ) (result : List A)
      → length first ≤ i + rounds
      → length second ≤ i + rounds
      → (out : List A) × (differences_loop fn first second rounds i result ≡ done out)
        × Perm out (
            result
            ++ (keep_if (missing_in second) (drop i first)
                ++ keep_if (missing_in first) (drop i second)))
  unfolding differences_loop
  differences_loop-perm first second zero i result h k = (
    result,
    refl,
    rw (drop-length first i (omega arith), drop-length second i (omega arith), append-nil)
        (Perm.refl result),
  )
  differences_loop-perm first second (suc rounds) i result h k =
      let (a, ea, ka) = differences_side_lem first second i result in
      let (b, eb, kb) = differences_side_lem second first i (result ++ a) in
      let (out, eo, po) =
        differences_loop-perm first second rounds (i + 1) ((result ++ a) ++ b) (omega arith)
          (omega arith) in
      let next : i + 1 ≡ suc i = omega arith in
      (out, rw (ea, eb) eo, rw (ka, kb) (Perm.trans (rw next at po) (regroup_perm result a b _ _)))

  -- `Differences` does not panic, and returns the items of each slice that compare equal to none of
  -- the other, each as often as it occurs, in some order.
  pub differences-perm :
      (first second : List A)
      → (out : List A) × (differences first second fn ≡ done out)
        × Perm out (both_missing first second)
  unfolding differences clone_slice
  differences-perm [] second =
      (second, refl, rw (keep_if_all (missing_in []) second (λ z. refl)) (Perm.refl second))
  differences-perm (x ∷ first) [] = (
    x ∷ first,
    refl,
    rw (keep_if_all (missing_in []) first (λ z. refl), append-nil) (Perm.refl _),
  )
  differences-perm (x ∷ first) (y ∷ second) =
      differences_loop-perm (x ∷ first) (y ∷ second) _ 0 [] (ground arith) (ground arith)
