-- ===== src/Conv/Unsigned.antt =====
-- `ToUintWith` and `ToUint64With` of mathutil/convert.go, and what calls them.
use goutil.Prelude.{ℕ, ◌-◌, ◌^◌, ◌%◌, not, ◌&&◌, [], none, if◌then◌else◌}
use goutil.Prelude.Int.{ℤ, pos, negsuc}
use goutil.Prelude.Outcome.{Outcome, done, panics}
use goutil.Text.{trim_space}
use goutil.Conv.{
  w64, native, to_unsigned, to_number, AnyValue, nil_value, signed, unsigned, float, duration,
  string, number, pointer, nil_pointer, Conv, is_simple_kind, ConvOption, ConvOptionFns,
  new_conv_option, fallback,
}
use goutil.Conv.Parse.{parse_uint}

-- `uint64(x)` of a signed x: modulo 2^64.
unfoldable pub wrap_uint64 : ℤ → ℕ
wrap_uint64 (pos n) = n % 2 ^ 64
wrap_uint64 (negsuc n) = 2 ^ 64 - 1 - n % 2 ^ 64

module _ {F : Type 0} (float_to_uint : F → ℕ) where
  pub switch_uint : ConvOption F ℕ → AnyValue F → Outcome (Conv ℕ)
  switch_uint opt (signed w n) = done (wrap_uint64 n, none)
  switch_uint opt (unsigned w n) = done (n, none)
  switch_uint opt (float f) = done (float_to_uint f, none)
  switch_uint opt (duration n) = done (wrap_uint64 n, none)
  switch_uint opt (number n e s) = done (wrap_uint64 n, e)
  switch_uint opt (string s) = done (parse_uint (trim_space s))
  switch_uint opt (pointer (unsigned native n)) = done (n, none)
  switch_uint opt (pointer (number n e s)) = done (wrap_uint64 n, e)
  switch_uint opt (pointer v) =
      if opt.handle_ptr && is_simple_kind v then switch_uint opt v else fallback 0 opt (pointer v)
  switch_uint opt (nil_pointer (to_unsigned native)) = panics
  switch_uint opt (nil_pointer to_number) = panics
  switch_uint opt v = fallback 0 opt v

  unfoldable pub to_uint_opt : ConvOption F ℕ → AnyValue F → Outcome (Conv ℕ)
  unfolding switch_uint wrap_uint64 is_simple_kind fallback
  to_uint_opt opt nil_value =
      if not opt.nil_as_fail then done (0, none) else switch_uint opt nil_value
  to_uint_opt opt v = switch_uint opt v

  unfoldable pub to_uint_with : AnyValue F → ConvOptionFns F ℕ → Outcome (Conv ℕ)
  unfolding to_uint_opt
  to_uint_with v opt_fns = to_uint_opt (new_conv_option opt_fns) v

  unfoldable pub to_uint : AnyValue F → Outcome (Conv ℕ)
  unfolding to_uint_with
  to_uint v = to_uint_with v []

  pub switch_uint64 : ConvOption F ℕ → AnyValue F → Outcome (Conv ℕ)
  switch_uint64 opt (signed w n) = done (wrap_uint64 n, none)
  switch_uint64 opt (unsigned w n) = done (n, none)
  switch_uint64 opt (float f) = done (float_to_uint f, none)
  switch_uint64 opt (duration n) = done (wrap_uint64 n, none)
  switch_uint64 opt (number n e s) = done (wrap_uint64 n, e)
  switch_uint64 opt (string s) = done (parse_uint (trim_space s))
  switch_uint64 opt (pointer (unsigned w64 n)) = done (n, none)
  switch_uint64 opt (pointer (number n e s)) = done (wrap_uint64 n, e)
  switch_uint64 opt (pointer v) =
      if opt.handle_ptr && is_simple_kind v then switch_uint64 opt v else fallback 0 opt (pointer v)
  switch_uint64 opt (nil_pointer (to_unsigned w64)) = panics
  switch_uint64 opt (nil_pointer to_number) = panics
  switch_uint64 opt v = fallback 0 opt v

  unfoldable pub to_uint64_opt : ConvOption F ℕ → AnyValue F → Outcome (Conv ℕ)
  unfolding switch_uint64 wrap_uint64 is_simple_kind fallback
  to_uint64_opt opt nil_value =
      if not opt.nil_as_fail then done (0, none) else switch_uint64 opt nil_value
  to_uint64_opt opt v = switch_uint64 opt v

  unfoldable pub to_uint64_with : AnyValue F → ConvOptionFns F ℕ → Outcome (Conv ℕ)
  unfolding to_uint64_opt
  to_uint64_with v opt_fns = to_uint64_opt (new_conv_option opt_fns) v

  unfoldable pub to_uint64 : AnyValue F → Outcome (Conv ℕ)
  unfolding to_uint64_with
  to_uint64 v = to_uint64_with v []
