-- ===== src/Conv.antt =====
-- mathutil/convert.go and internal/comfunc/convert.go: conversions from `any` to integers and text.
-- `int` and `uint` have 64 bits. `AnyValue F` lists the dynamic types that the switches tell apart;
-- `F` stands for both float types, whose conversions are parameters. A value of another type is
-- `other`, with whether its kind is simple, as that of a named integer type is. A result is the value with the error, as the source returns both.
pub mod Parse
pub mod Signed
pub mod Unsigned
pub mod Print
pub mod Exact
pub mod RoundTrip
mod Tests
use goutil.Prelude.{ℕ, Bool, true, false, ◌&&◌, List, [], ◌∷◌, Option, none, some}
use goutil.Prelude.Int.{ℤ}
use goutil.Prelude.Outcome.{Outcome, done}
use goutil.Text.{Text}

-- The width of an integer type; `native` is that of `int` and `uint`.
pub data Width : Type 0 where
  w8 w16 w32 w64 native : Width

pub data ConvError : Type 0 where
  overflow syntax_error range_error conv_type_error : ConvError
  custom : Text → ConvError

-- What a nil pointer points to.
pub data Pointee : Type 0 where
  to_signed : Width → Pointee
  to_unsigned : Width → Pointee
  to_string to_number to_other : Pointee

-- `number` is a `json.Number`, with what its `Int64` returns and its text.
pub data AnyValue (F : Type 0) : Type 0 where
  nil_value : AnyValue F
  signed : Width → ℤ → AnyValue F
  unsigned : Width → ℕ → AnyValue F
  float : F → AnyValue F
  duration : ℤ → AnyValue F
  string : Text → AnyValue F
  bytes : Text → AnyValue F
  number : ℤ → Option ConvError → Text → AnyValue F
  boolean : Bool → AnyValue F
  pointer : AnyValue F → AnyValue F
  nil_pointer : Pointee → AnyValue F
  other : Bool → AnyValue F

abbrev pub Conv : Type 0 → Type 0
Conv A = A × Option ConvError

-- `checkfn.IsSimpleKind` of the kind of a value.
pub is_simple_kind : {F : Type 0} → AnyValue F → Bool
is_simple_kind (signed w n) = true
is_simple_kind (unsigned w n) = true
is_simple_kind (float f) = true
is_simple_kind (duration n) = true
is_simple_kind (string s) = true
is_simple_kind (number n e s) = true
is_simple_kind (boolean b) = true
is_simple_kind (other simple) = simple
is_simple_kind _ = false

pub record ConvOption (F A : Type 0) : Type 0 where
  pub nil_as_fail : Bool
  pub handle_ptr : Bool
  pub user_conv_fn : Option (AnyValue F → Conv A)

-- An option function may be nil.
abbrev pub ConvOptionFns : Type 0 → Type 0 → Type 0
ConvOptionFns F A = List (Option (ConvOption F A → ConvOption F A))

module _ {F A : Type 0} where
  unfoldable pub with_option : ConvOption F A → ConvOptionFns F A → ConvOption F A
  with_option opt [] = opt
  with_option opt (none ∷ fns) = with_option opt fns
  with_option opt (some fn ∷ fns) = with_option (fn opt) fns

  unfoldable pub new_conv_option : ConvOptionFns F A → ConvOption F A
  unfolding with_option
  new_conv_option =
      with_option (record { nil_as_fail = false; handle_ptr = false; user_conv_fn = none })

  pub with_nil_as_fail : ConvOption F A → ConvOption F A
  with_nil_as_fail opt = record opt { nil_as_fail = true }

  pub with_handle_ptr : ConvOption F A → ConvOption F A
  with_handle_ptr opt = record opt { handle_ptr = true }

  pub with_user_conv_fn : (AnyValue F → Conv A) → ConvOption F A → ConvOption F A
  with_user_conv_fn fn opt = record opt { user_conv_fn = some fn }

  -- The end of the default branch.
  unfoldable pub fallback : A → ConvOption F A → AnyValue F → Outcome (Conv A)
  fallback zero_value opt v = elim opt.user_conv_fn [
    | none ↦ done (zero_value, some conv_type_error)
    | some fn ↦ done (fn v)
  ]
