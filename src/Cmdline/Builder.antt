-- ===== src/Cmdline/Builder.antt =====
-- `LineBuilder` of cliutil/cmdline/builder.go: the state is the text written so far.
use goutil.Prelude.{
  ℕ, ◌-◌, Bool, false, not, ◌&&◌, ◌||◌, List, [], ◌∷◌, ◌++◌, none, some, ◌==◌, if◌then◌else◌,
  length, get_elem?,
}
use goutil.Prelude.Int.{pos, negsuc, ltb_ℤ}
use goutil.Text.{Text, index_char, contains_char}

-- `a[len(a)-1] == q`
unfoldable pub ends_with : Text → ℕ → Bool
ends_with a q = elim (get_elem? a (length a - 1)) [ none ↦ false | some l ↦ l == q ]

-- The quote that `WriteString` puts round the argument; 0 for none.
unfoldable pub quote_for : Text → ℕ
quote_for a =
    let dq = index_char a b'"' in
    let sq = index_char a b'\'' in
    if ltb_ℤ (negsuc 0) dq
    then (if ltb_ℤ (pos 0) dq && ends_with a b'"' then 0 else b'\'')
    else if ltb_ℤ (negsuc 0) sq
    then (if ltb_ℤ (pos 0) sq && ends_with a b'\'' then 0 else b'"')
    else if length a == 0 || contains_char a b' '
    then b'"'
    else 0

-- `WriteString` on the builder.
unfoldable pub write_string : Text → Text → Text
unfolding ends_with quote_for
write_string b a =
    let quote = quote_for a in
    let b' = if not (length b == 0) then b ++ b' ' ∷ [] else b in
    if quote == 0 then b' ++ a else (b' ++ quote ∷ []) ++ (a ++ quote ∷ [])

unfoldable pub add_array : Text → List Text → Text
unfolding write_string
add_array b [] = b
add_array b (arg ∷ args) = add_array (write_string b arg) args

unfoldable pub new_builder : Text → List Text → Text
new_builder [] args = add_array [] args
new_builder (c ∷ bin_file) args = add_array (write_string [] (c ∷ bin_file)) args

unfoldable pub line_build : Text → List Text → Text
unfolding add_array new_builder
line_build bin_file args = new_builder bin_file args
