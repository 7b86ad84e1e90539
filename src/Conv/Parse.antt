-- ===== src/Conv/Parse.antt =====
-- `strconv.ParseUint`, `ParseInt` and `Atoi` at base 10 and 64 bits, as Go documents them: a value out
-- of range gives the nearest value in range and an error.
use goutil.Prelude.{
  ℕ, zero, suc, ◌+◌, ◌-◌, ◌*◌, ◌^◌, Bool, true, false, [], ◌∷◌, none, some, ltb, leb, ◌==◌,
  if◌then◌else◌,
}
use goutil.Prelude.Int.{ℤ, pos, negsuc}
use goutil.Text.{Text}
use goutil.Conv.{syntax_error, range_error, Conv}

abbrev pub max_uint64 : ℕ
max_uint64 = 2 ^ 64 - 1

abbrev pub is_digit : ℕ → Bool
is_digit c = if ltb c b'0' then false else leb c b'9'

-- The digits from left to right; a value over 64 bits ends the loop.
unfoldable pub uint_loop : ℕ → Text → Conv ℕ
uint_loop n [] = (n, none)
uint_loop n (c ∷ s) =
    let n' = n * 10 + (c - b'0') in
    let rest = uint_loop n' s in
    if is_digit c
    then (if ltb max_uint64 n' then (max_uint64, some range_error) else rest)
    else (0, some syntax_error)

unfoldable pub parse_uint : Text → Conv ℕ
unfolding uint_loop
parse_uint [] = (0, some syntax_error)
parse_uint (c ∷ s) = uint_loop 0 (c ∷ s)

abbrev pub negate : ℕ → ℤ
negate n = elim n [ zero ↦ pos 0 | suc m ↦ negsuc m ]

-- The unsigned value behind a sign, held to 64 bits.
unfoldable pub with_sign : Bool → Conv ℕ → Conv ℤ
with_sign neg (n, some syntax_error) = (pos 0, some syntax_error)
with_sign true (n, e) =
    if ltb (2 ^ 63) n then (negsuc (2 ^ 63 - 1), some range_error) else (negate n, none)
with_sign false (n, e) =
    if leb (2 ^ 63) n then (pos (2 ^ 63 - 1), some range_error) else (pos n, none)

unfoldable pub parse_int : Text → Conv ℤ
unfolding parse_uint with_sign
parse_int [] = (pos 0, some syntax_error)
parse_int (c ∷ s) =
    if c == b'-'
    then with_sign true (parse_uint s)
    else if c == b'+'
    then with_sign false (parse_uint s)
    else with_sign false (parse_uint (c ∷ s))
