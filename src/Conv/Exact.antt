-- ===== src/Conv/Exact.antt =====
-- When a conversion between integer types keeps the number, and what it does otherwise.
use goutil.Prelude.{
  ℕ, ◌-◌, ◌^◌, ◌%◌, ◌<◌, ◌≡◌, refl, arith, true, ◌⊎◌, inl, inr, Bool-cases, Option, none, some,
}
use goutil.Prelude.Int.{ℤ, pos, negsuc, ltb_ℤ}
use goutil.Prelude.Outcome.{Outcome, done}
use goutil.Conv.{
  Width, w8, w16, w32, w64, native, overflow, AnyValue, signed, unsigned, duration, pointer, Conv,
}
use goutil.Conv.RoundTrip.{IsInt64}
use goutil.Conv.Signed.{max_int32, check_int32, to_int, to_int64}
use goutil.Conv.Unsigned.{to_uint, to_uint64}

-- The number that a value of an integer type, a duration or a pointer to an `int` holds.
abbrev pub integer_value : {F : Type 0} → AnyValue F → Option ℤ
integer_value (signed w n) = some n
integer_value (unsigned w n) = some (pos n)
integer_value (duration n) = some n
integer_value (pointer (signed native n)) = some n
integer_value _ = none

module _ {F : Type 0} (float_to_int : F → ℤ) where
  abbrev pub ExactOrOverflow : ℤ → Outcome (Conv ℤ) → Type 0
  ExactOrOverflow n r =
      (r ≡ done (n, none)) ⊎ ((r ≡ done (pos 0, some overflow)) × (ltb_ℤ (pos max_int32) n ≡ true))

  check_int32-ExactOrOverflow : (n : ℤ) → ExactOrOverflow n (done (check_int32 n))
  unfolding check_int32
  check_int32-ExactOrOverflow n = elim (Bool-cases (ltb_ℤ (pos max_int32) n)) [
    | inl over ↦ inr (rw over, over)
    | inr fits ↦ inl (rw fits)
  ]

  carried : (m : ℤ) {n : ℤ} → some m ≡ some n → ExactOrOverflow n (done (check_int32 m))
  carried m {n} h = let e : n ≡ m = cc h in rw e (check_int32-ExactOrOverflow m)

  -- `ToInt` of a value that holds an integer returns that integer, or 0 and an overflow error, and
  -- the error only where the integer is over the largest int32. It never returns another number.
  pub to_int-ExactOrOverflow :
      (v : AnyValue F) {n : ℤ}
      → integer_value v ≡ some n
      → ExactOrOverflow n (to_int float_to_int v)
  unfolding to_int
  to_int-ExactOrOverflow (signed native m) h = inl (ground arith)
  to_int-ExactOrOverflow (signed w8 m) h = inl (ground arith)
  to_int-ExactOrOverflow (signed w16 m) h = inl (ground arith)
  to_int-ExactOrOverflow (signed w32 m) h = inl (ground arith)
  to_int-ExactOrOverflow (signed w64 m) h = carried m h
  to_int-ExactOrOverflow (unsigned native m) h = carried (pos m) h
  to_int-ExactOrOverflow (unsigned w8 m) h = inl (ground arith)
  to_int-ExactOrOverflow (unsigned w16 m) h = inl (ground arith)
  to_int-ExactOrOverflow (unsigned w32 m) h = carried (pos m) h
  to_int-ExactOrOverflow (unsigned w64 m) h = carried (pos m) h
  to_int-ExactOrOverflow (duration m) h = carried m h
  to_int-ExactOrOverflow (pointer (signed native m)) h = inl (ground arith)
  to_int-ExactOrOverflow _ h = cc

module _ {F : Type 0} (float_to_int : F → ℤ) (float_to_uint : F → ℕ) where
  -- An int64 that `ToUint64` or `ToUint` turns into an unsigned number, without an error even where
  -- it is negative, is turned back by `ToInt64`: the 64 bits stay.
  pub to_int64-to_uint64 :
      (w : Width) (z : ℤ)
      → IsInt64 z
      → (n : ℕ) × (to_uint64 float_to_uint (signed w z) ≡ done (n, none))
        × (to_uint float_to_uint (signed w z) ≡ done (n, none))
        × (n < 2 ^ 64)
        × (to_int64 float_to_int (unsigned w64 n) ≡ done (z, none))
  unfolding to_uint64 to_uint to_int64
  to_int64-to_uint64 w (pos n) h = (n % 2 ^ 64, refl, refl, omega arith, ground arith)
  to_int64-to_uint64 w (negsuc n) h =
      (2 ^ 64 - 1 - n % 2 ^ 64, refl, refl, omega arith, ground arith)
