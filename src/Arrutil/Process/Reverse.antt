-- ===== src/Arrutil/Process/Reverse.antt =====
-- `Reverse` of arrutil/process.go swaps its way to the reversed slice.
use mathlib.Core.List.{reverse, reverse-cons}
use goutil.Prelude.{
  ℕ, zero, suc, ◌+◌, ◌-◌, ◌/◌, ◌<◌, ◌≤◌, ◌≡◌, ◌≢◌, refl, sym, ap, ◌∙◌, arith, ◌⊎◌, inl, inr, List,
  [], ◌∷◌, length, length-append, length-set, get_elem?, get_elem?-some, get_elem?-none,
  get_elem?-set_self, get_elem?-set_ne, get_elem?-append_left, get_elem?-append_right,
  get_elem?_ext, set,
}
use native.Mathlib.Nat.{add-zero}
use goutil.Prelude.Outcome.{done}
use goutil.Arrutil.Search.{index-done}
use goutil.Arrutil.Process.{swap, reverse_loop, reverse_in_place}

module _ {ℓ} {A : Type ℓ} where
  pub length-reverse : (xs : List A) → length (reverse xs) ≡ length xs
  length-reverse [] = refl
  length-reverse (x ∷ xs) =
      rw reverse-cons (omega (arith, length-append (reverse xs) (x ∷ []), length-reverse xs))

  pub get_elem?-reverse :
      (xs : List A) (j : ℕ)
      → j < length xs
      → get_elem? (reverse xs) j ≡ get_elem? xs (length xs - 1 - j)
  get_elem?-reverse [] j h = absurd (omega arith)
  get_elem?-reverse (x ∷ xs) j h = elim (split j h) [
    | inl front ↦
        let e : suc (length xs) - 1 - j ≡ suc (length xs - 1 - j) = omega arith in
        rw (reverse-cons, e)
          (get_elem?-append_left (reverse xs) (x ∷ []) j (omega (arith, length-reverse xs))
            ∙ get_elem?-reverse xs j front)
    | inr end ↦
        let e : suc (length xs) - 1 - j ≡ 0 = omega arith in
        let at_end : j ≡ length (reverse xs) + 0 = omega (arith, length-reverse xs) in
        rw (reverse-cons, e, at_end) (get_elem?-append_right (reverse xs) (x ∷ []) 0)
  ]
    where
      split : (j : ℕ) → j < suc (length xs) → (j < length xs) ⊎ (j ≡ length xs)
      split j h = omega arith

  -- A swap in range exchanges two items and leaves the rest.
  swap_lem :
      (ls : List A) (i j : ℕ)
      → i < length ls
      → j < length ls
      → i ≢ j
      → (out : List A) × (swap ls i j ≡ done out)
        × (length out ≡ length ls)
        × (get_elem? out i ≡ get_elem? ls j)
        × (get_elem? out j ≡ get_elem? ls i)
        × ((k : ℕ) → k ≢ i → k ≢ j → get_elem? out k ≡ get_elem? ls k)
  unfolding swap
  swap_lem ls i j hi hj ne =
      let (x, gx) = get_elem?-some ls i hi in
      let (y, gy) = get_elem?-some ls j hj in
      let small : j < length (set ls i y) = omega (arith, length-set ls i y) in
      (
        set (set ls i y) j x,
        rw (index-done ls i gx, index-done ls j gy),
        length-set (set ls i y) j x ∙ length-set ls i y,
        get_elem?-set_ne (set ls i y) j i x (λ e. ne (sym e))
            ∙ get_elem?-set_self ls i y hi
            ∙ sym gy,
        get_elem?-set_self (set ls i y) j x small ∙ sym gx,
        λ k ni nj.
            get_elem?-set_ne (set ls i y) j k x (λ e. nj (sym e))
            ∙ get_elem?-set_ne ls i k y (λ e. ni (sym e)),
      )

  -- After `i` rounds the outer `i` items of each end have changed places.
  record Mirrored (orig ls : List A) (i : ℕ) : Type ℓ where
    same_length : length ls ≡ length orig
    outer :
        (j : ℕ)
        → j < length orig
        → (j < i) ⊎ (length orig ≤ j + i)
        → get_elem? ls j ≡ get_elem? orig (length orig - 1 - j)
    inner : (j : ℕ) → i ≤ j → j + i < length orig → get_elem? ls j ≡ get_elem? orig j

  Mirrored-step :
      (orig ls : List A) (i : ℕ)
      → suc (i + i) < length orig
      → Mirrored orig ls i
      → (out : List A) × (swap ls i (length orig - i - 1) ≡ done out) × Mirrored orig out (i + 1)
  Mirrored-step orig ls i room m =
      let n = length orig in
      let same = m.same_length in
      let (out, swapped, len, at_i, at_li, others) =
        swap_lem ls i (n - i - 1) (omega arith) (omega arith) (omega arith) in
      (
        out,
        swapped,
        record {
          same_length = len ∙ same;
          outer = λ j hj w. elim (cases j hj w) [
            | inl (inl e) ↦
                rw (e, at_i)
                  (m.inner (n - i - 1) (omega arith) (omega arith)
                    ∙ ap (get_elem? orig) (omega arith))
            | inl (inr e) ↦
                rw (e, at_li)
                  (m.inner i (omega arith) (omega arith) ∙ ap (get_elem? orig) (omega arith))
            | inr w' ↦ others j (ne_i j hj w') (ne_li j hj w') ∙ m.outer j hj w'
          ];
          inner = λ j lo hi.
              others j (omega arith) (omega arith) ∙ m.inner j (omega arith) (omega arith);
        },
      )
    where
      cases :
          (j : ℕ)
          → j < length orig
          → (j < i + 1) ⊎ (length orig ≤ j + (i + 1))
          → ((j ≡ i) ⊎ (j ≡ length orig - i - 1)) ⊎ ((j < i) ⊎ (length orig ≤ j + i))
      cases j hj w = ground arith

      ne_i : (j : ℕ) → j < length orig → (j < i) ⊎ (length orig ≤ j + i) → j ≢ i
      ne_i j hj w = ground arith

      ne_li : (j : ℕ) → j < length orig → (j < i) ⊎ (length orig ≤ j + i) → j ≢ length orig - i - 1
      ne_li j hj w = ground arith

  reverse_loop-Mirrored :
      (orig : List A) (rounds i : ℕ) (ls : List A)
      → (i + rounds) + (i + rounds) ≤ length orig
      → Mirrored orig ls i
      → (out : List A) × (reverse_loop (length orig) rounds i ls ≡ done out)
        × Mirrored orig out (i + rounds)
  unfolding reverse_loop
  reverse_loop-Mirrored orig zero i ls h m = (ls, refl, rw (add-zero i) m)
  reverse_loop-Mirrored orig (suc rounds) i ls h m =
      let (mid, swapped, m') = Mirrored-step orig ls i (omega arith) m in
      let (out, rest, m'') = reverse_loop-Mirrored orig rounds (i + 1) mid (omega arith) m' in
      let e : i + 1 + rounds ≡ i + suc rounds = omega arith in (out, rw swapped rest, rw e at m'')

  -- `Reverse` never reads or writes out of range, and leaves the items in reverse order.
  pub reverse_in_place-reverse : (ls : List A) → reverse_in_place ls ≡ done (reverse ls)
  unfolding reverse_in_place
  reverse_in_place-reverse ls =
      let n = length ls in
      let start : Mirrored ls ls 0 = record {
        same_length = refl;
        outer = λ j hj w. absurd (ground arith);
        inner = λ j lo hi. refl;
      } in
      let (out, run, m) = reverse_loop-Mirrored ls (n / 2) 0 ls (omega arith) start in
      run ∙ ap done (get_elem?_ext out (reverse ls) (agree out m))
    where
      window :
          (j : ℕ)
          → (((j < length ls) × ((j < 0 + length ls / 2) ⊎ (length ls ≤ j + (0 + length ls / 2))))
              ⊎ ((j < length ls) × (j ≡ length ls - 1 - j)))
            ⊎ (length ls ≤ j)
      window j = grind arith

      agree :
          (out : List A)
          → Mirrored ls out (0 + length ls / 2)
          → (j : ℕ) → get_elem? out j ≡ get_elem? (reverse ls) j
      agree out m j = elim (window j) [
        | inr over ↦
            get_elem?-none out j (omega (arith, m.same_length))
            ∙ sym (get_elem?-none (reverse ls) j (omega (arith, length-reverse ls)))
        | inl (inl (hj, w)) ↦ m.outer j hj w ∙ sym (get_elem?-reverse ls j hj)
        | inl (inr (hj, e)) ↦
            m.inner j (omega arith) (omega arith)
            ∙ ap (get_elem? ls) e
            ∙ sym (get_elem?-reverse ls j hj)
      ]
