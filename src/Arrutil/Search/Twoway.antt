-- ===== src/Arrutil/Search/Twoway.antt =====
-- `TwowaySearch` ends, reads in range, and finds an item that compares equal if there is one.
use goutil.Prelude.{
  ℕ, zero, suc, ◌+◌, ◌-◌, ◌<◌, ◌≤◌, ◌≡◌, refl, arith, Bool, true, false, not, ◌||◌, ◌⊎◌, inl, inr,
  List, [], ◌∷◌, Option, none, some, Bool-cases, length, get_elem?, get_elem?-some, get_elem?-none,
  leb,
}
use goutil.Prelude.Int.{ℤ, pos, negsuc, ltb_ℤ, ◌==ℤ◌}
use goutil.Prelude.Outcome.{Outcome, done, panics}
use goutil.Arrutil.Search.{
  SearchError, data_is_empty, element_not_found, minus_one, index-done, twoway_loop, twoway_search,
}

module _ {ℓ} {A : Type ℓ} (fn : A → A → ℤ) (item : A) where
  -- Some item of the list compares equal to `item`.
  abbrev pub has : List A → Bool
  has [] = false
  has (x ∷ xs) = (fn x item ==ℤ pos 0) || has xs

  -- What a returned pair tells of the list: the index of a match, or -1 and no match anywhere.
  abbrev pub Found : List A → Outcome (ℤ × Option SearchError) → Type ℓ
  Found xs (done (pos i, e)) =
      (x : A) × (get_elem? xs i ≡ some x) × ((fn x item ==ℤ pos 0) ≡ true) × (e ≡ none)
  Found xs (done (negsuc n, e)) =
      (n ≡ 0)
      × (e ≡ some element_not_found)
      × ((j : ℕ) (x : A) → get_elem? xs j ≡ some x → (fn x item ==ℤ pos 0) ≡ false)
  Found xs panics = (x : A) × ⊥

  -- No item outside the window between the two indices matches.
  abbrev Outside : List A → ℕ → ℕ → Type ℓ
  Outside xs f b =
      (j : ℕ) (x : A) → get_elem? xs j ≡ some x → (j < f) ⊎ (b < j) → (fn x item ==ℤ pos 0) ≡ false

  Outside-step :
      (xs : List A) (f b : ℕ) (x y : A)
      → f ≤ b
      → Outside xs f b
      → get_elem? xs f ≡ some x
      → (fn x item ==ℤ pos 0) ≡ false
      → get_elem? xs b ≡ some y
      → (fn y item ==ℤ pos 0) ≡ false
      → Outside xs (f + 1) (b - 1)
  Outside-step xs f b x y h out gx mx gy my j z gz w = go (cases w)
    where
      cases : (j < f + 1) ⊎ (b - 1 < j) → ((j < f) ⊎ (b < j)) ⊎ ((j ≡ f) ⊎ (j ≡ b))
      cases w = ground arith

      go : ((j < f) ⊎ (b < j)) ⊎ ((j ≡ f) ⊎ (j ≡ b)) → (fn z item ==ℤ pos 0) ≡ false
      go (inl o) = out j z gz o
      go (inr (inl e)) = cc
      go (inr (inr e)) = cc

  twoway_loop-Found :
      (xs : List A) (rounds f b : ℕ)
      → suc b - f < rounds
      → b < length xs
      → Outside xs f b
      → Found xs (twoway_loop fn xs item rounds f b)
  unfolding twoway_loop
  twoway_loop-Found xs zero f b fuel small out = absurd (omega arith)
  twoway_loop-Found xs (suc rounds) f b fuel small out = elim (Bool-cases (leb f b)) [
    | inr over ↦ rw over (refl, refl, λ j x g. out j x g (ground arith))
    | inl run ↦
        let (x, gx) = get_elem?-some xs f (ground arith) in
        let (y, gy) = get_elem?-some xs b small in
        rw (run, index-done xs f gx)
          (elim (Bool-cases (fn x item ==ℤ pos 0)) [
            | inl m ↦ rw m (x, gx, m, refl)
            | inr m ↦
                rw (m, index-done xs b gy)
                  (elim (Bool-cases (fn y item ==ℤ pos 0)) [
                    | inl m' ↦ rw m' (y, gy, m', refl)
                    | inr m' ↦ rw m' (
                        twoway_loop-Found xs rounds (f + 1) (b - 1) (ground arith) (omega arith)
                          (Outside-step xs f b x y (ground arith) out gx m gy m'))
                  ])
          ])
  ]

  -- `TwowaySearch` on a slice with an item returns the index of an item that compares equal, with no
  -- error, or -1 and `ErrElementNotFound` where no item does. It never reads out of range.
  pub twoway_search-Found :
      (x : A) (xs : List A) → Found (x ∷ xs) (twoway_search (some (x ∷ xs)) item (some fn))
  unfolding twoway_search
  twoway_search-Found x xs =
      twoway_loop-Found (x ∷ xs) _ 0 _ (omega arith) (omega arith)
        λ j z g o. absurd (cc (g, get_elem?-none (x ∷ xs) j (ground arith)))

  has_of_match :
      (xs : List A) (j : ℕ) (x : A)
      → get_elem? xs j ≡ some x
      → (fn x item ==ℤ pos 0) ≡ true
      → has xs ≡ true
  has_of_match [] j x g m = cc
  has_of_match (y ∷ xs) zero x g m = ground arith
  has_of_match (y ∷ xs) (suc j) x g m = ground (arith, has_of_match xs j x g m)

  not-has :
      (xs : List A)
      → ((j : ℕ) (x : A) → get_elem? xs j ≡ some x → (fn x item ==ℤ pos 0) ≡ false)
      → has xs ≡ false
  not-has [] h = refl
  not-has (y ∷ xs) h = ground (arith, h 0 y refl, not-has xs (λ j x g. h (suc j) x g))

  -- The sign of the returned index tells whether some item compares equal.
  abbrev Signed : List A → Outcome (ℤ × Option SearchError) → Type 0
  Signed xs (done (i, e)) = ltb_ℤ i (pos 0) ≡ not (has xs)
  Signed xs panics = ⊥

  Found-Signed : (xs : List A) (r : Outcome (ℤ × Option SearchError)) → Found xs r → Signed xs r
  Found-Signed xs (done (pos i, e)) (x, g, m, _) = ground (arith, has_of_match xs i x g m)
  Found-Signed xs (done (negsuc n, e)) (_, _, none_at) = ground (arith, not-has xs none_at)
  Found-Signed xs panics (x, h) = h

  pub twoway_search-sign :
      (xs : List A)
      → (i : ℤ) × (e : Option SearchError) × (twoway_search (some xs) item (some fn) ≡ done (i, e))
        × (ltb_ℤ i (pos 0) ≡ not (has xs))
  twoway_search-sign [] = (minus_one, some data_is_empty, unfold twoway_search in refl, refl)
  twoway_search-sign (x ∷ xs) = go _ refl (Found-Signed (x ∷ xs) _ (twoway_search-Found x xs))
    where
      go :
          (r : Outcome (ℤ × Option SearchError))
          → twoway_search (some (x ∷ xs)) item (some fn) ≡ r
          → Signed (x ∷ xs) r
          → (i : ℤ) × (e : Option SearchError) × (twoway_search (some (x ∷ xs)) item (some fn)
              ≡ done (i, e))
            × (ltb_ℤ i (pos 0) ≡ not (has (x ∷ xs)))
      go (done (i, e)) h s = (i, e, h, s)
      go panics h s = absurd s
