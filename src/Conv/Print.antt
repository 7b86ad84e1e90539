-- ===== src/Conv/Print.antt =====
-- `ToStringWith` of internal/comfunc/convert.go, with `strconv.FormatInt` and `FormatUint` at base 10.
-- The texts of floats and of durations behind a pointer are parameters.
use goutil.Prelude.{
  ℕ, zero, suc, ◌+◌, ◌/◌, ◌%◌, Bool, true, false, not, ◌&&◌, [], ◌∷◌, none, ◌==◌, if◌then◌else◌,
}
use goutil.Prelude.Int.{ℤ, pos, negsuc}
use goutil.Prelude.Outcome.{Outcome, done, panics}
use goutil.Text.{Text, codes}
use goutil.Conv.{
  to_string, to_number, AnyValue, nil_value, signed, unsigned, float, duration, string, bytes,
  number, boolean, pointer, nil_pointer, Conv, is_simple_kind, ConvOption, ConvOptionFns,
  new_conv_option, fallback,
}

-- The digits of a number in front of `out`; as many rounds as the number are always enough.
unfoldable pub digits : ℕ → ℕ → Text → Text
digits zero n out = out
digits (suc rounds) n out =
    let rest = digits rounds (n / 10) ((b'0' + n % 10) ∷ out) in if n == 0 then out else rest

unfoldable pub format_uint : ℕ → Text
unfolding digits
format_uint n = if n == 0 then b'0' ∷ [] else digits n n []

unfoldable pub format_int : ℤ → Text
unfolding format_uint
format_int (pos n) = format_uint n
format_int (negsuc n) = b'-' ∷ format_uint (suc n)

abbrev pub format_bool : Bool → Text
format_bool true = codes "true"
format_bool false = codes "false"

module _ {F : Type 0} (float_to_text : F → Text) (duration_to_text : ℤ → Text) where
  pub switch_string : ConvOption F Text → AnyValue F → Outcome (Conv Text)
  switch_string opt (signed w n) = done (format_int n, none)
  switch_string opt (unsigned w n) = done (format_uint n, none)
  switch_string opt (float f) = done (float_to_text f, none)
  switch_string opt (boolean b) = done (format_bool b, none)
  switch_string opt (string s) = done (s, none)
  switch_string opt (pointer (string s)) = done (s, none)
  switch_string opt (bytes s) = done (s, none)
  switch_string opt (duration n) = done (format_int n, none)
  switch_string opt (number n e s) = done (s, none)
  switch_string opt (pointer (number n e s)) = done (s, none)
  switch_string opt (pointer (duration n)) = done (duration_to_text n, none)
  switch_string opt (pointer v) =
      if opt.handle_ptr && is_simple_kind v
      then switch_string opt v
      else fallback [] opt (pointer v)
  switch_string opt (nil_pointer to_string) = panics
  switch_string opt (nil_pointer to_number) = panics
  switch_string opt v = fallback [] opt v

  unfoldable pub to_string_opt : ConvOption F Text → AnyValue F → Outcome (Conv Text)
  unfolding switch_string is_simple_kind fallback
  to_string_opt opt nil_value =
      if not opt.nil_as_fail then done ([], none) else switch_string opt nil_value
  to_string_opt opt v = switch_string opt v

  unfoldable pub to_string_with : AnyValue F → ConvOptionFns F Text → Outcome (Conv Text)
  unfolding to_string_opt
  to_string_with v opt_fns = to_string_opt (new_conv_option opt_fns) v
