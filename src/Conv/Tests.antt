-- ===== src/Conv/Tests.antt =====
-- The conversions run on concrete values; a float is a natural number here.
use goutil.Prelude.{ℕ, ◌^◌, ◌<◌, ◌≡◌, refl, arith, true, [], ◌∷◌, none, some}
use goutil.Prelude.Int.{ℤ, pos, negsuc}
use goutil.Prelude.Outcome.{done, panics}
use goutil.Text.{Text, codes, trim_space, is_space}
use goutil.Conv.Parse.{parse_int}
use goutil.Conv.{
  w32, w64, native, conv_type_error, nil_value, signed, unsigned, string, to_signed, nil_pointer,
  with_handle_ptr, with_nil_as_fail, new_conv_option,
}
use goutil.Conv.Signed.{to_int, to_int64, to_int_with}
use goutil.Conv.Unsigned.{to_uint, to_uint64}
use goutil.Conv.Print.{to_string_with}
use goutil.Conv.RoundTrip.{to_string_with-read}
use goutil.Conv.Exact.{ExactOrOverflow, to_int-ExactOrOverflow, to_int64-to_uint64}

abbrev float_int : ℕ → ℤ
float_int f = pos f

abbrev float_uint : ℕ → ℕ
float_uint f = f

abbrev no_text : ℕ → Text
no_text f = []

abbrev duration_text : ℤ → Text
duration_text n = codes "1s"

handles_ptr : (new_conv_option {F = ℕ} {A = ℤ} (some with_handle_ptr ∷ [])).handle_ptr ≡ true
unfolding new_conv_option with_handle_ptr
handles_ptr = refl

to_int-spaces : to_int float_int (string (codes " -12 ")) ≡ done (negsuc 11, none)
unfolding to_int parse_int trim_space is_space
to_int-spaces = refl

to_int-nil_pointer : to_int float_int (nil_pointer (to_signed native)) ≡ panics
unfolding to_int
to_int-nil_pointer = refl

to_int-nil_fails :
    to_int_with float_int nil_value (some with_nil_as_fail ∷ [])
    ≡ done (pos 0, some conv_type_error)
unfolding to_int_with with_nil_as_fail new_conv_option
to_int-nil_fails = refl

to_string_with-read_example :
    ((t : Text) × (to_string_with no_text duration_text (signed w64 (negsuc 41)) []
        ≡ done (t, none))
      × (to_int64 float_int (string t) ≡ done (negsuc 41, none))
      × (to_int float_int (string t) ≡ done (negsuc 41, none)))
    × ((t : Text) × (to_string_with no_text duration_text (unsigned w64 42) [] ≡ done (t, none))
        × (to_uint64 float_uint (string t) ≡ done (42, none)))
to_string_with-read_example =
    to_string_with-read float_int float_uint no_text duration_text w64 (negsuc 41) 42 []
      (omega arith) (omega arith)

to_int-ExactOrOverflow_example :
    ExactOrOverflow float_int (pos 3000000000) (to_int float_int (unsigned w32 3000000000))
to_int-ExactOrOverflow_example = to_int-ExactOrOverflow float_int (unsigned w32 3000000000) refl

to_int64-to_uint64_example :
    (n : ℕ) × (to_uint64 float_uint (signed w64 (negsuc 0)) ≡ done (n, none))
    × (to_uint float_uint (signed w64 (negsuc 0)) ≡ done (n, none))
    × (n < 2 ^ 64)
    × (to_int64 float_int (unsigned w64 n) ≡ done (negsuc 0, none))
to_int64-to_uint64_example = to_int64-to_uint64 float_int float_uint w64 (negsuc 0) (omega arith)
