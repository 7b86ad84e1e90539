-- ===== src/Conv/Signed.antt =====
-- `ToIntWith` and `ToInt64With` of mathutil/convert.go, and what calls them.
use goutil.Prelude.{ℕ, ◌-◌, ◌^◌, not, ◌&&◌, [], Option, none, some, ltb, if◌then◌else◌}
use goutil.Prelude.Int.{ℤ, pos, negsuc, ltb_ℤ}
use goutil.Prelude.Outcome.{Outcome, done, panics}
use goutil.Text.{trim_space}
use goutil.Conv.{
  w8, w16, w32, w64, native, ConvError, overflow, to_signed, to_number, AnyValue, nil_value, signed,
  unsigned, float, duration, string, number, pointer, nil_pointer, Conv, is_simple_kind, ConvOption,
  ConvOptionFns, new_conv_option, fallback,
}
use goutil.Conv.Parse.{parse_int}

abbrev pub max_int32 : ℕ
max_int32 = 2 ^ 31 - 1

-- `int64(x)` of an unsigned 64-bit x: the bits stay.
unfoldable pub wrap_int64 : ℕ → ℤ
wrap_int64 n = if ltb n (2 ^ 63) then pos n else negsuc (2 ^ 64 - 1 - n)

-- `if tVal > math.MaxInt32 { err = ... } else { iVal = int(tVal) }`
unfoldable pub check_int32 : ℤ → Conv ℤ
check_int32 n = if ltb_ℤ (pos max_int32) n then (pos 0, some overflow) else (n, none)

abbrev pub check_number : ℤ → Option ConvError → Conv ℤ
check_number n none = check_int32 n
check_number n (some e) = (pos 0, some e)

module _ {F : Type 0} (float_to_int : F → ℤ) where
  -- The switch of `ToIntWith`, on a value that is not nil or whose nil is to fail.
  pub switch_int : ConvOption F ℤ → AnyValue F → Outcome (Conv ℤ)
  switch_int opt (signed native n) = done (n, none)
  switch_int opt (signed w8 n) = done (n, none)
  switch_int opt (signed w16 n) = done (n, none)
  switch_int opt (signed w32 n) = done (n, none)
  switch_int opt (signed w64 n) = done (check_int32 n)
  switch_int opt (unsigned native n) = done (check_int32 (pos n))
  switch_int opt (unsigned w8 n) = done (pos n, none)
  switch_int opt (unsigned w16 n) = done (pos n, none)
  switch_int opt (unsigned w32 n) = done (check_int32 (pos n))
  switch_int opt (unsigned w64 n) = done (check_int32 (pos n))
  switch_int opt (float f) = done (float_to_int f, none)
  switch_int opt (duration n) = done (check_int32 n)
  switch_int opt (string s) = done (parse_int (trim_space s))
  switch_int opt (number n e s) = done (check_number n e)
  switch_int opt (pointer (signed native n)) = done (n, none)
  switch_int opt (pointer (number n e s)) = done (check_number n e)
  switch_int opt (pointer v) =
      if opt.handle_ptr && is_simple_kind v
      then switch_int opt v
      else fallback (pos 0) opt (pointer v)
  switch_int opt (nil_pointer (to_signed native)) = panics
  switch_int opt (nil_pointer to_number) = panics
  switch_int opt v = fallback (pos 0) opt v

  unfoldable pub to_int_opt : ConvOption F ℤ → AnyValue F → Outcome (Conv ℤ)
  unfolding switch_int check_int32 is_simple_kind fallback
  to_int_opt opt nil_value =
      if not opt.nil_as_fail then done (pos 0, none) else switch_int opt nil_value
  to_int_opt opt v = switch_int opt v

  unfoldable pub to_int_with : AnyValue F → ConvOptionFns F ℤ → Outcome (Conv ℤ)
  unfolding to_int_opt
  to_int_with v opt_fns = to_int_opt (new_conv_option opt_fns) v

  unfoldable pub to_int : AnyValue F → Outcome (Conv ℤ)
  unfolding to_int_with
  to_int v = to_int_with v []

  -- The switch of `ToInt64With`.
  pub switch_int64 : ConvOption F ℤ → AnyValue F → Outcome (Conv ℤ)
  switch_int64 opt (string s) = done (parse_int (trim_space s))
  switch_int64 opt (signed w n) = done (n, none)
  switch_int64 opt (unsigned w n) = done (wrap_int64 n, none)
  switch_int64 opt (float f) = done (float_to_int f, none)
  switch_int64 opt (duration n) = done (n, none)
  switch_int64 opt (number n e s) = done (n, e)
  switch_int64 opt (pointer (signed w64 n)) = done (n, none)
  switch_int64 opt (pointer (number n e s)) = done (n, e)
  switch_int64 opt (pointer v) =
      if opt.handle_ptr && is_simple_kind v
      then switch_int64 opt v
      else fallback (pos 0) opt (pointer v)
  switch_int64 opt (nil_pointer (to_signed w64)) = panics
  switch_int64 opt (nil_pointer to_number) = panics
  switch_int64 opt v = fallback (pos 0) opt v

  unfoldable pub to_int64_opt : ConvOption F ℤ → AnyValue F → Outcome (Conv ℤ)
  unfolding switch_int64 wrap_int64 is_simple_kind fallback
  to_int64_opt opt nil_value =
      if not opt.nil_as_fail then done (pos 0, none) else switch_int64 opt nil_value
  to_int64_opt opt v = switch_int64 opt v

  unfoldable pub to_int64_with : AnyValue F → ConvOptionFns F ℤ → Outcome (Conv ℤ)
  unfolding to_int64_opt
  to_int64_with v opt_fns = to_int64_opt (new_conv_option opt_fns) v

  unfoldable pub to_int64 : AnyValue F → Outcome (Conv ℤ)
  unfolding to_int64_with
  to_int64 v = to_int64_with v []

-- `SafeInt`, `IntOr` and `MustInt` on the result of the conversion, and the same for the other types.
abbrev pub safe : {A : Type 0} → Outcome (Conv A) → Outcome A
safe (done (n, e)) = done n
safe panics = panics

abbrev pub or_default : {A : Type 0} → Outcome (Conv A) → A → Outcome A
or_default (done (n, none)) def_val = done n
or_default (done (n, some e)) def_val = done def_val
or_default panics def_val = panics

abbrev pub must : {A : Type 0} → Outcome (Conv A) → Outcome A
must (done (n, none)) = done n
must (done (n, some e)) = panics
must panics = panics
