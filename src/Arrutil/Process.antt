-- ===== src/Arrutil/Process.antt =====
-- arrutil/process.go, the string lists of strings.go, the lookups of check.go and the accessors of
-- list.go. A map[T]struct{} is the list of its keys; variadic arguments are a list.
pub mod Reverse
pub mod Unique
pub mod Remove
pub mod Accessors
use goutil.Prelude.{
  ℕ, zero, suc, ◌+◌, ◌-◌, ◌/◌, Bool, true, false, not, List, [], ◌∷◌, ◌++◌, Option, none, some, ltb,
  leb, if◌then◌else◌, Eq, length, get_elem?, set,
}
use goutil.Prelude.Int.{ℤ, pos, negsuc}
use goutil.Prelude.Outcome.{Outcome, done, panics, ◌>>=◌}
use goutil.Arrutil.Search.{index}

module _ {ℓ} {A : Type ℓ} where
  -- `ls[i], ls[li] = ls[li], ls[i]`
  pub swap : List A → ℕ → ℕ → Outcome (List A)
  swap ls i j = do x ← index ls i; y ← index ls j; done (set (set ls i y) j x)

  -- `for i := 0; i < ln/2; i++`, by the rounds that are left.
  reverse_loop : ℕ → ℕ → ℕ → List A → Outcome (List A)
  reverse_loop ln zero i ls = done ls
  reverse_loop ln (suc rounds) i ls = do
    ls' ← swap ls i (ln - i - 1)
    reverse_loop ln rounds (i + 1) ls'

  -- `Reverse` in place: the slice afterwards.
  pub reverse_in_place : List A → Outcome (List A)
  reverse_in_place ls = reverse_loop (length ls) (length ls / 2) 0 ls

  pub filter_loop : (A → Bool) → List A → List A → List A
  filter_loop fn [] new_ls = new_ls
  filter_loop fn (el ∷ ls) new_ls = filter_loop fn ls (if fn el then new_ls ++ el ∷ [] else new_ls)

  -- The first filter, if there is one and it is not nil; otherwise the items that are not zero.
  -- `is_zero` is the reflection test of the element type.
  pub filter_slice : (A → Bool) → List A → List (Option (A → Bool)) → List A
  filter_slice is_zero ls (some fn ∷ rest) = filter_loop fn ls []
  filter_slice is_zero ls _ = filter_loop (λ el. not (is_zero el)) ls []

  pub map_loop {κ} : {B : Type κ} → (A → B × Bool) → List A → List B → List B
  map_loop map_fn [] flat_arr = flat_arr
  map_loop map_fn (obj ∷ ls) flat_arr =
      let (target, ok) = map_fn obj in
      map_loop map_fn ls (if ok then flat_arr ++ target ∷ [] else flat_arr)

  pub map_slice {κ} : {B : Type κ} → List A → (A → B × Bool) → List B
  map_slice ls map_fn = map_loop map_fn ls []

  -- `First` and `Last`: the item, the first default value, or a panic.
  pub first : List A → List A → Outcome A
  first (x ∷ ls) def_val = done x
  first [] (d ∷ def_val) = done d
  first [] [] = panics

  pub last : List A → List A → Outcome A
  last (x ∷ ls) def_val = index (x ∷ ls) (length (x ∷ ls) - 1)
  last [] (d ∷ def_val) = done d
  last [] [] = panics

module _ {ℓ} {A : Type ℓ} ⦃e : Eq A⦄ where
  -- The loop of `Contains`, `StringsContains`, `SliceHas`, `In` and `StringsHas`.
  pub contains : List A → A → Bool
  contains [] val = false
  contains (v ∷ ls) val = if e.beq v val then true else contains ls val

  pub is_sub_list : List A → List A → Bool
  is_sub_list [] ls = true
  is_sub_list (value ∷ values) ls = if not (contains ls value) then false else is_sub_list values ls

  unique_loop : List A → List A → List A → List A
  unique_loop [] val_map uni_arr = uni_arr
  unique_loop (t ∷ ls) val_map uni_arr =
      let known = contains val_map t in
      unique_loop ls (if known then val_map else t ∷ val_map)
        (if known then uni_arr else uni_arr ++ t ∷ [])

  pub unique : List A → List A
  unique ls = if ltb (length ls) 2 then ls else unique_loop ls [] []

  strings_unique_loop : List A → List A → List A
  strings_unique_loop [] uni = uni
  strings_unique_loop (s ∷ ss) uni =
      strings_unique_loop ss (if not (contains uni s) then uni ++ s ∷ [] else uni)

  pub strings_unique : List A → List A
  strings_unique ss = strings_unique_loop ss []

  index_of_loop : A → List A → ℕ → ℤ
  index_of_loop val [] i = negsuc 0
  index_of_loop val (v ∷ ls) i = if e.beq v val then pos i else index_of_loop val ls (i + 1)

  pub index_of : A → List A → ℤ
  index_of val ls = index_of_loop val ls 0

  -- `Remove` filters by `el != val`.
  pub remove : (A → Bool) → List A → A → List A
  remove is_zero ls val = filter_slice is_zero ls (some (λ el. not (e.beq el val)) ∷ [])
