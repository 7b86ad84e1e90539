-- ===== src/Arrutil/Tests.antt =====
-- The theorems on arrutil at small slices.
use mathlib.Core.List.{Perm, reverse, filter_map}
use goutil.Prelude.{
  ℕ, ◌+◌, ◌≡◌, Bool, true, false, not, ◌&&◌, ◌↔◌, ◌⊎◌, List, [], ◌∷◌, ◌++◌, none, some, ltb, ◌==◌,
  if◌then◌else◌, nat_eq, get_elem?, keep_if, take, length,
}
use goutil.Prelude.Int.{ℤ, pos, negsuc}
use goutil.Prelude.Outcome.{done}
use goutil.Arrutil.Search.{
  twoway_search, excepts, intersects, union, differences, take_while, except_while,
}
use goutil.Arrutil.Search.Sets.{missing_in, both_missing, set_operations-keep_if, differences-perm}
use goutil.Arrutil.Search.Twoway.{Found, has, twoway_search-Found}
use goutil.Arrutil.Search.While.{take_while-except_while}
use goutil.Arrutil.Process.{
  reverse_in_place, unique, strings_unique, contains, index_of, is_sub_list, remove, filter_slice,
  map_slice,
}
use goutil.Arrutil.Process.Accessors.{chosen, filter_slice-keep_if, target?, map_slice-filter_map}
use goutil.Arrutil.Process.Reverse.{reverse_in_place-reverse}
use goutil.Arrutil.Process.Remove.{IsWithout, count, remove-IsWithout}
use goutil.Arrutil.Process.Unique.{IsDistinct, unique-members, index_of-first, is_sub_list_iff}

-- `ValueEqualsComparer` on numbers.
abbrev value_equals : ℕ → ℕ → ℤ
value_equals a b = if a == b then pos 0 else negsuc 0

abbrev abc : List ℕ
abc = 1 ∷ 2 ∷ 3 ∷ []

abbrev cd : List ℕ
cd = 3 ∷ 4 ∷ []

abbrev small : ℕ → Bool
small n = ltb n 2

abbrev double_small : ℕ → ℕ × Bool
double_small n = (n + n, ltb n 3)

twoway_search-Found_example :
    Found value_equals 3 abc (twoway_search (some abc) 3 (some value_equals))
twoway_search-Found_example = twoway_search-Found value_equals 3 1 (2 ∷ 3 ∷ [])

set_operations-keep_if_example :
    (excepts abc cd value_equals ≡ done (keep_if (missing_in value_equals cd) abc))
    × (intersects abc cd value_equals ≡ done (keep_if (λ s. has value_equals s cd) abc))
    × (union abc cd value_equals ≡ done (abc ++ keep_if (missing_in value_equals abc) cd))
set_operations-keep_if_example = set_operations-keep_if value_equals abc cd

differences-perm_example :
    (out : List ℕ) × (differences abc cd value_equals ≡ done out)
    × Perm out (both_missing value_equals abc cd)
differences-perm_example = differences-perm value_equals abc cd

take_while-except_while_example :
    (take_while abc small ≡ keep_if small abc)
    × (except_while abc small ≡ keep_if (λ x. not (small x)) abc)
    × Perm (take_while abc small ++ except_while abc small) abc
take_while-except_while_example = take_while-except_while small abc

reverse_in_place-reverse_example : reverse_in_place abc ≡ done (reverse abc)
reverse_in_place-reverse_example = reverse_in_place-reverse abc

unique-members_example :
    IsDistinct (unique (1 ∷ abc))
    × ((a : ℕ) → contains (unique (1 ∷ abc)) a ≡ contains (1 ∷ abc) a)
    × (unique (1 ∷ abc) ≡ strings_unique (1 ∷ abc))
unique-members_example = unique-members (1 ∷ abc)

index_of-first_example :
    ((i : ℕ) × (x : ℕ) × (index_of 2 abc ≡ pos i)
      × (get_elem? abc i ≡ some x)
      × ((x == 2) ≡ true)
      × (contains (take i abc) 2 ≡ false))
    ⊎ ((index_of 2 abc ≡ negsuc 0) × (contains abc 2 ≡ false))
index_of-first_example = index_of-first 2 abc

remove-IsWithout_example :
    IsWithout 2 abc (remove (λ x. x == 0) abc 2)
    × (length (remove (λ x. x == 0) abc 2) + count 2 abc ≡ length abc)
    × ((a : ℕ) → contains (remove (λ x. x == 0) abc 2) a ≡ (not (a == 2) && contains abc a))
remove-IsWithout_example = remove-IsWithout (λ x. x == 0) abc 2

is_sub_list_iff_example :
    (is_sub_list (2 ∷ []) abc ≡ true)
    ↔ ((a : ℕ) → contains (2 ∷ []) a ≡ true → contains abc a ≡ true)
is_sub_list_iff_example = is_sub_list_iff (2 ∷ []) abc

filter_slice-keep_if_example :
    filter_slice (λ x. x == 0) abc (none ∷ []) ≡ keep_if (chosen (λ x. x == 0) (none ∷ [])) abc
filter_slice-keep_if_example = filter_slice-keep_if (λ x. x == 0) abc (none ∷ [])

map_slice-filter_map_example : map_slice abc double_small ≡ filter_map (target? double_small) abc
map_slice-filter_map_example = map_slice-filter_map double_small abc
