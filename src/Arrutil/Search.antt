-- ===== src/Arrutil/Search.antt =====
-- arrutil/collection.go: the two-way search, the set operations that call it, and the predicates.
-- A comparer returns an int, and 0 means equal. A nil slice or a nil comparer is `none`.
pub mod Twoway
pub mod Sets
pub mod While
use goutil.Prelude.{
  ℕ, zero, suc, ◌+◌, ◌-◌, ◌≡◌, refl, Bool, true, false, not, ◌||◌, List, [], ◌∷◌, ◌++◌, Option,
  none, some, ltb, leb, if◌then◌else◌, length, get_elem?,
}
use goutil.Prelude.Int.{ℤ, pos, negsuc, ltb_ℤ, ◌==ℤ◌}
use goutil.Prelude.Outcome.{Outcome, done, panics, ◌>>=◌}

-- The errors of `TwowaySearch` and `Find`.
pub data SearchError : Type 0 where
  data_is_nil fn_is_nil data_is_empty element_not_found : SearchError

abbrev pub minus_one : ℤ
minus_one = negsuc 0

module _ {ℓ} {A : Type ℓ} where
  -- `data[i]`, which panics out of range.
  unfoldable pub index : List A → ℕ → Outcome A
  index xs i = elim (get_elem? xs i) [ none ↦ panics | some x ↦ done x ]

  pub index-done : (xs : List A) (i : ℕ) {x : A} → get_elem? xs i ≡ some x → index xs i ≡ done x
  unfolding index
  index-done xs i h = rw (h, index)

  -- `for forward <= backward`. When `backward` is 0 so is `forward`, and both the int -1 of the
  -- source and the 0 of `backward - 1` end the loop.
  twoway_loop : (A → A → ℤ) → List A → A → ℕ → ℕ → ℕ → Outcome (ℤ × Option SearchError)
  twoway_loop fn xs item zero forward backward = panics
  twoway_loop fn xs item (suc rounds) forward backward =
      let rest = twoway_loop fn xs item rounds (forward + 1) (backward - 1) in
      if leb forward backward
      then (index xs forward >>= λ x.
          if fn x item ==ℤ pos 0
          then done (pos forward, none)
          else (index xs backward >>= λ y.
              if fn y item ==ℤ pos 0 then done (pos backward, none) else rest))
      else done (minus_one, some element_not_found)

  pub twoway_search : Option (List A) → A → Option (A → A → ℤ) → Outcome (ℤ × Option SearchError)
  twoway_search none item fn = done (minus_one, some data_is_nil)
  twoway_search (some xs) item none = done (minus_one, some fn_is_nil)
  twoway_search (some []) item (some fn) = done (minus_one, some data_is_empty)
  twoway_search (some (x ∷ xs)) item (some fn) =
      twoway_loop fn (x ∷ xs) item (suc (length (x ∷ xs))) 0 (length (x ∷ xs) - 1)

  -- `CloneSlice` copies the items into a slice of its own.
  pub clone_slice : List A → List A
  clone_slice xs = [] ++ xs

  -- `if i, _ := TwowaySearch(second, s, fn); i < 0 { result = append(result, s) }`
  pub append_missing : (A → A → ℤ) → List A → A → List A → Outcome (List A)
  append_missing fn second s result = do
    (i, err) ← twoway_search (some second) s (some fn)
    done (if ltb_ℤ i (pos 0) then result ++ s ∷ [] else result)

  pub append_found : (A → A → ℤ) → List A → A → List A → Outcome (List A)
  append_found fn second s result = do
    (i, err) ← twoway_search (some second) s (some fn)
    done (if ltb_ℤ i (pos 0) then result else result ++ s ∷ [])

  excepts_loop : (A → A → ℤ) → List A → List A → List A → Outcome (List A)
  excepts_loop fn second [] result = done result
  excepts_loop fn second (s ∷ first) result = do
    result' ← append_missing fn second s result
    excepts_loop fn second first result'

  pub excepts : List A → List A → (A → A → ℤ) → Outcome (List A)
  excepts [] second fn = done []
  excepts (x ∷ first) [] fn = done (clone_slice (x ∷ first))
  excepts (x ∷ first) (y ∷ second) fn = excepts_loop fn (y ∷ second) (x ∷ first) []

  intersects_loop : (A → A → ℤ) → List A → List A → List A → Outcome (List A)
  intersects_loop fn second [] result = done result
  intersects_loop fn second (s ∷ first) result = do
    result' ← append_found fn second s result
    intersects_loop fn second first result'

  pub intersects : List A → List A → (A → A → ℤ) → Outcome (List A)
  intersects [] second fn = done []
  intersects (x ∷ first) [] fn = done []
  intersects (x ∷ first) (y ∷ second) fn = intersects_loop fn (y ∷ second) (x ∷ first) []

  pub union : List A → List A → (A → A → ℤ) → Outcome (List A)
  union [] second fn = done (clone_slice second)
  union (x ∷ first) second fn = do
    rest ← excepts second (x ∷ first) fn
    done (([] ++ (x ∷ first)) ++ rest)

  -- One side of a round of `Differences`: `if i < len { ... }`.
  differences_side : (A → A → ℤ) → List A → List A → ℕ → List A → Outcome (List A)
  differences_side fn own other i result =
      if ltb i (length own)
      then (index own i >>= λ s. append_missing fn other s result)
      else done result

  -- `for i := 0; i < maxLn; i++`, by the rounds that are left.
  differences_loop : (A → A → ℤ) → List A → List A → ℕ → ℕ → List A → Outcome (List A)
  differences_loop fn first second zero i result = done result
  differences_loop fn first second (suc rounds) i result = do
    result' ← differences_side fn first second i result
    result'' ← differences_side fn second first i result'
    differences_loop fn first second rounds (i + 1) result''

  pub differences : List A → List A → (A → A → ℤ) → Outcome (List A)
  differences [] second fn = done (clone_slice second)
  differences (x ∷ first) [] fn = done (clone_slice (x ∷ first))
  differences (x ∷ first) (y ∷ second) fn =
      let first_len = length (x ∷ first) in
      let second_len = length (y ∷ second) in
      let max_ln = if ltb first_len second_len then second_len else first_len in
      differences_loop fn (x ∷ first) (y ∷ second) max_ln 0 []

  pub diff : List A → List A → (A → A → ℤ) → Outcome (List A)
  diff first second fn = differences first second fn

  -- A zero value comes with the error of the source.
  pub find : List A → (A → Bool) → A → A × Option SearchError
  find [] fn zero_value = (zero_value, some element_not_found)
  find (s ∷ source) fn zero_value = if fn s then (s, none) else find source fn zero_value

  pub find_or_default : List A → (A → Bool) → A → A → A
  find_or_default source fn default_value zero_value =
      let (item, err) = find source fn zero_value in
      elim err [ none ↦ item | some e ↦ default_value ]

  take_while_loop : (A → Bool) → List A → List A → List A
  take_while_loop fn [] result = result
  take_while_loop fn (v ∷ xs) result =
      take_while_loop fn xs (if fn v then result ++ v ∷ [] else result)

  pub take_while : List A → (A → Bool) → List A
  take_while xs fn = take_while_loop fn xs []

  except_while_loop : (A → Bool) → List A → List A → List A
  except_while_loop fn [] result = result
  except_while_loop fn (v ∷ xs) result =
      except_while_loop fn xs (if not (fn v) then result ++ v ∷ [] else result)

  pub except_while : List A → (A → Bool) → List A
  except_while xs fn = except_while_loop fn xs []
