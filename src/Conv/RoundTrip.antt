-- ===== src/Conv/RoundTrip.antt =====
-- Decimal texts of integers are read back.
use goutil.Prelude.{
  ℕ, zero, suc, ◌+◌, ◌-◌, ◌*◌, ◌/◌, ◌%◌, ◌^◌, ◌≤◌, ◌<◌, ◌≡◌, ◌≢◌, refl, ap, ◌∙◌, arith, true, false,
  inl, inr, Bool-cases, [], ◌∷◌, none, ◌==◌, ==_iff,
}
use goutil.Prelude.Int.{ℤ, pos, negsuc}
use goutil.Prelude.Outcome.{done}
use goutil.Text.{Text, is_space, trim_space}
use goutil.Text.Laws.{Every, solid_char, trim_space-solid}
use goutil.Conv.{Width, ConvOptionFns, signed, unsigned, string}
use goutil.Conv.Parse.{max_uint64, is_digit, uint_loop, parse_uint, with_sign, parse_int}
use goutil.Conv.Print.{digits, format_uint, format_int, to_string_with}
use goutil.Conv.Signed.{to_int64, to_int}
use goutil.Conv.Unsigned.{to_uint64}

-- Reading the last digit of `n` behind the number that the other digits spell gives `n`.
uint_loop_last :
    (n : ℕ) (out : Text)
    → n ≤ max_uint64
    → uint_loop (n / 10) ((b'0' + n % 10) ∷ out) ≡ uint_loop n out
unfolding uint_loop
uint_loop_last n out h =
    let e : n / 10 * 10 + (b'0' + n % 10 - b'0') ≡ n = omega arith in rw e (ground arith)

uint_loop-digits :
    (rounds n : ℕ) (out : Text)
    → n ≤ rounds
    → n ≤ max_uint64
    → uint_loop 0 (digits rounds n out) ≡ uint_loop n out
unfolding digits
uint_loop-digits zero n out h k = let e : n ≡ 0 = omega arith in rw e
uint_loop-digits (suc rounds) n out h k = elim (Bool-cases (n == 0)) [
  | inl z ↦ rw (z, (==_iff n 0).0 z)
  | inr nz ↦ rw nz (
      uint_loop-digits rounds (n / 10) ((b'0' + n % 10) ∷ out) (ground arith) (omega arith)
      ∙ uint_loop_last n out k)
]

digits-Every :
    (rounds n : ℕ) (out : Text) → Every is_digit out → Every is_digit (digits rounds n out)
unfolding digits
digits-Every zero n out h = h
digits-Every (suc rounds) n out h = elim (Bool-cases (n == 0)) [
  | inl z ↦ rw z h
  | inr nz ↦ rw nz (digits-Every rounds (n / 10) ((b'0' + n % 10) ∷ out) (ground arith, h))
]

digits-ne-nil : (rounds n : ℕ) (out : Text) → out ≢ [] → digits rounds n out ≢ []
unfolding digits
digits-ne-nil zero n out h = h
digits-ne-nil (suc rounds) n out h = elim (Bool-cases (n == 0)) [
  | inl z ↦ rw z h
  | inr nz ↦ rw nz (digits-ne-nil rounds (n / 10) ((b'0' + n % 10) ∷ out) (cc))
]

digits_pos : (n : ℕ) → (n == 0) ≡ false → digits n n [] ≢ []
digits_pos zero h = cc
digits_pos (suc n) h =
    unfold digits in rw h (digits-ne-nil n (suc n / 10) ((b'0' + suc n % 10) ∷ []) (cc))

-- What the decimal text of a number is: a digit and more digits, which `uint_loop` reads back.
abbrev Decimal : ℕ → Text → Type 0
Decimal n [] = ⊥
Decimal n (c ∷ s) = Every is_digit (c ∷ s) × (uint_loop 0 (c ∷ s) ≡ (n, none))

Decimal-digits :
    (n : ℕ) (t : Text) → t ≢ [] → Every is_digit t → uint_loop 0 t ≡ (n, none) → Decimal n t
Decimal-digits n [] ne h k = ne refl
Decimal-digits n (c ∷ s) ne h k = (h, k)

format_uint-Decimal : (n : ℕ) → n ≤ max_uint64 → Decimal n (format_uint n)
unfolding format_uint
format_uint-Decimal n h = elim (Bool-cases (n == 0)) [
  | inl z ↦ rw (z, (==_iff n 0).0 z) ((refl, tt), unfold uint_loop in refl)
  | inr nz ↦ rw nz (
      Decimal-digits n (digits n n []) (digits_pos n nz) (digits-Every n n [] tt)
        (uint_loop-digits n n [] (omega arith) h ∙ unfold uint_loop in refl))
]

-- No digit is a space or a sign.
digit_below : (d : ℕ) → d < 10 → solid_char (b'0' + d) ≡ true
unfolding is_space
digit_below zero h = refl
digit_below (suc zero) h = refl
digit_below (suc (suc zero)) h = refl
digit_below (suc (suc (suc zero))) h = refl
digit_below (suc (suc (suc (suc zero)))) h = refl
digit_below (suc (suc (suc (suc (suc zero))))) h = refl
digit_below (suc (suc (suc (suc (suc (suc zero)))))) h = refl
digit_below (suc (suc (suc (suc (suc (suc (suc zero))))))) h = refl
digit_below (suc (suc (suc (suc (suc (suc (suc (suc zero)))))))) h = refl
digit_below (suc (suc (suc (suc (suc (suc (suc (suc (suc zero))))))))) h = refl
digit_below (suc (suc (suc (suc (suc (suc (suc (suc (suc (suc d)))))))))) h = absurd (omega arith)

digit_solid : (c : ℕ) → is_digit c ≡ true → solid_char c ≡ true
digit_solid c h =
    let e : b'0' + (c - b'0') ≡ c = ground arith in rw e at (digit_below (c - b'0') (ground arith))

Every-digit_solid : (s : Text) → Every is_digit s → Every solid_char s
Every-digit_solid [] h = tt
Every-digit_solid (c ∷ s) (hc, h) = (digit_solid c hc, Every-digit_solid s h)

minus_solid : solid_char b'-' ≡ true
unfolding is_space
minus_solid = refl

trim_space-Decimal : (n : ℕ) (t : Text) → Decimal n t → trim_space t ≡ t
trim_space-Decimal n [] h = absurd h
trim_space-Decimal n (c ∷ s) (h, k) = trim_space-solid c s (Every-digit_solid (c ∷ s) h)

trim_space-minus : (n : ℕ) (t : Text) → Decimal n t → trim_space (b'-' ∷ t) ≡ b'-' ∷ t
trim_space-minus n [] h = absurd h
trim_space-minus n (c ∷ s) (h, k) =
    trim_space-solid b'-' (c ∷ s) (minus_solid, Every-digit_solid (c ∷ s) h)

parse_uint-Decimal : (n : ℕ) (t : Text) → Decimal n t → parse_uint t ≡ (n, none)
unfolding parse_uint
parse_uint-Decimal n [] h = absurd h
parse_uint-Decimal n (c ∷ s) (h, k) = k

parse_int-Decimal : (n : ℕ) (t : Text) → Decimal n t → parse_int t ≡ with_sign false (n, none)
unfolding parse_int
parse_int-Decimal n [] h = absurd h
parse_int-Decimal n (c ∷ s) (h, k) = ground (arith, h.0, k)

parse_int-minus : (n : ℕ) → n < 2 ^ 63 → parse_int (b'-' ∷ format_uint (suc n)) ≡ (negsuc n, none)
unfolding parse_int with_sign
parse_int-minus n h =
    rw
      (parse_uint-Decimal (suc n) (format_uint (suc n)) (format_uint-Decimal (suc n) (omega arith)))
      (ground arith)

-- A negative number that is printed is read back.
pub parse_int-negative : (n : ℕ) → n < 2 ^ 63 → parse_int (format_int (negsuc n)) ≡ (negsuc n, none)
unfolding format_int
parse_int-negative n h = parse_int-minus n h

-- The integers of 64 bits.
abbrev pub IsInt64 : ℤ → Type 0
IsInt64 (pos n) = n < 2 ^ 63
IsInt64 (negsuc n) = n < 2 ^ 63

parse_int-format_int : (z : ℤ) → IsInt64 z → parse_int (trim_space (format_int z)) ≡ (z, none)
unfolding format_int
parse_int-format_int (pos n) h =
    let dec = format_uint-Decimal n (omega arith) in
    rw (trim_space-Decimal n (format_uint n) dec, parse_int-Decimal n (format_uint n) dec)
      (unfold with_sign in ground arith)
parse_int-format_int (negsuc n) h =
    let dec = format_uint-Decimal (suc n) (omega arith) in
    rw (trim_space-minus (suc n) (format_uint (suc n)) dec) (parse_int-minus n h)

module _ {F : Type 0} (float_to_int : F → ℤ) (float_to_text : F → Text)
    (duration_to_text : ℤ → Text) where
  -- An int64 that `ToStringWith` prints, with any options, is read back by `ToInt64` and by `ToInt`
  -- with no error.
  pub to_int64-to_string_with :
      (w : Width) (z : ℤ) (fns : ConvOptionFns F Text)
      → IsInt64 z
      → (t : Text) × (to_string_with float_to_text duration_to_text (signed w z) fns
          ≡ done (t, none))
        × (to_int64 float_to_int (string t) ≡ done (z, none))
        × (to_int float_to_int (string t) ≡ done (z, none))
  unfolding to_string_with to_int64 to_int
  to_int64-to_string_with w z fns h =
      (format_int z, refl, ap done (parse_int-format_int z h), ap done (parse_int-format_int z h))

module _ {F : Type 0} (float_to_uint : F → ℕ) (float_to_text : F → Text)
    (duration_to_text : ℤ → Text) where
  -- A uint64 that `ToStringWith` prints, with any options, is read back by `ToUint64` with no error.
  pub to_uint64-to_string_with :
      (w : Width) (n : ℕ) (fns : ConvOptionFns F Text)
      → n < 2 ^ 64
      → (t : Text) × (to_string_with float_to_text duration_to_text (unsigned w n) fns
          ≡ done (t, none))
        × (to_uint64 float_to_uint (string t) ≡ done (n, none))
  unfolding to_string_with to_uint64
  to_uint64-to_string_with w n fns h =
      let dec = format_uint-Decimal n (omega arith) in
      (
        format_uint n,
        refl,
        ap done (
            ap parse_uint (trim_space-Decimal n (format_uint n) dec)
            ∙ parse_uint-Decimal n (format_uint n) dec),
      )

module _ {F : Type 0} (float_to_int : F → ℤ) (float_to_uint : F → ℕ) (float_to_text : F → Text)
    (duration_to_text : ℤ → Text) where
  -- What `ToStringWith` prints of an int64, with any options, is read back by `ToInt64` and `ToInt`,
  -- and what it prints of a uint64 by `ToUint64`, each with no error.
  pub to_string_with-read :
      (w : Width) (z : ℤ) (n : ℕ) (fns : ConvOptionFns F Text)
      → IsInt64 z
      → n < 2 ^ 64
      → ((t : Text) × (to_string_with float_to_text duration_to_text (signed w z) fns
            ≡ done (t, none))
          × (to_int64 float_to_int (string t) ≡ done (z, none))
          × (to_int float_to_int (string t) ≡ done (z, none)))
        × ((t : Text) × (to_string_with float_to_text duration_to_text (unsigned w n) fns
              ≡ done (t, none))
            × (to_uint64 float_to_uint (string t) ≡ done (n, none)))
  to_string_with-read w z n fns h k = (
    to_int64-to_string_with float_to_int float_to_text duration_to_text w z fns h,
    to_uint64-to_string_with float_to_uint float_to_text duration_to_text w n fns k,
  )
