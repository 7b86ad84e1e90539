-- ===== src/Errorx/Groups.antt =====
-- errorx/errors.go: lists of errors, maps of errors and errors with a code.
use goutil.Prelude.{Bool, not, List, [], ◌∷◌, ◌++◌, Option, none, some}
use goutil.Prelude.Int.{ℤ, pos, ◌==ℤ◌}
use goutil.Text.{Text, codes}
use goutil.Conv.Print.{format_int}
use goutil.Errorx.Chain.{GoError, error_text}

abbrev pub line_end : Text
line_end = b'\n' ∷ []

unfoldable pub errors_text : List GoError → Text
unfolding error_text
errors_text [] = []
errors_text (e ∷ es) = error_text e ++ (line_end ++ errors_text es)

-- `ErrorOrNil`
unfoldable pub errors_or_nil : List GoError → Option (List GoError)
errors_or_nil [] = none
errors_or_nil (e ∷ es) = some (e ∷ es)

unfoldable pub first_error : List GoError → Option GoError
first_error [] = none
first_error (e ∷ es) = some e

-- A map of errors by name.
unfoldable pub error_map_text : List (Text × GoError) → Text
unfolding error_text
error_map_text [] = []
error_map_text ((name, e) ∷ es) =
    name ++ (codes ":" ++ (error_text e ++ (line_end ++ error_map_text es)))

pub record ErrorR : Type 0 where
  pub code : ℤ
  pub msg : Text

unfoldable pub new_r : ℤ → Text → ErrorR
new_r code msg = record { code = code; msg = msg }

unfoldable pub suc_r : Text → ErrorR
suc_r msg = record { code = pos 0; msg = msg }

unfoldable pub is_suc : ErrorR → Bool
is_suc e = e.code ==ℤ pos 0

unfoldable pub is_fail : ErrorR → Bool
is_fail e = not (e.code ==ℤ pos 0)

unfoldable pub error_r_string : ErrorR → Text
error_r_string e = e.msg ++ (codes "(code: " ++ (format_int e.code ++ codes ")"))
