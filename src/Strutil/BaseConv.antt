-- ===== src/Strutil/BaseConv.antt =====
-- strutil/convbase.go: numbers written in one base are written in another. The digits of a base are
-- the characters of a template, which are ASCII, so a position in it counts bytes and characters.
use goutil.Prelude.{
  ℕ, zero, suc, ◌+◌, ◌*◌, ◌/◌, ◌%◌, ◌^◌, Bool, true, ◌||◌, [], ◌∷◌, Option, none, some, ltb, ◌==◌,
  if◌then◌else◌, length, take, get_elem?,
}
use goutil.Prelude.Int.{ℤ, pos, negsuc}
use goutil.Prelude.Outcome.{Outcome, done, panics}
use goutil.Text.{Text, codes, text_eq, index_char}
use goutil.Conv.{Conv}
use goutil.Conv.Parse.{parse_uint}
use goutil.Conv.Unsigned.{wrap_uint64}

abbrev pub base10_chars : Text
base10_chars = codes "0123456789"

abbrev pub base64_chars : Text
base64_chars = codes "0123456789abcdefghijklmnopqrstuvwxyzABCDEFGHIJKLMNOPQRSTUVWXYZ+/"

-- The loop over the digits of the source, on 64 bits: what is no digit counts as `uint64(-1)`.
unfoldable pub decode_loop : Text → ℕ → Text → ℕ
decode_loop from n [] = n
decode_loop from n (c ∷ s) =
    decode_loop from ((n * length from % 2 ^ 64 + wrap_uint64 (index_char from c)) % 2 ^ 64) s

abbrev pub or_panic : Conv ℕ → Outcome ℕ
or_panic (n, none) = done n
or_panic (n, some e) = panics

-- The number behind the source.
unfoldable pub decode : Text → Text → Outcome ℕ
unfolding decode_loop
decode from src =
    if text_eq from base10_chars then or_panic (parse_uint src) else done (decode_loop from 0 src)

-- A digit in front of the text; none is the panic of a position out of range.
abbrev pub with_digit : Option ℕ → (ℕ → Option (Outcome Text)) → Option (Outcome Text)
with_digit none rest = some panics
with_digit (some c) rest = rest c

-- The loop over the number: `none` when the fuel is out and the number is not yet zero.
unfoldable pub encode_loop : ℕ → Text → ℕ → Text → Option (Outcome Text)
encode_loop zero to n res = if n == 0 then some (done res) else none
encode_loop (suc fuel) to n res =
    let rest : ℕ → Option (Outcome Text) = λ c. encode_loop fuel to (n / length to) (c ∷ res) in
    if n == 0 then some (done res) else with_digit (get_elem? to (n % length to)) rest

abbrev pub encode : ℕ → Text → Outcome ℕ → Option (Outcome Text)
encode fuel to (done n) = encode_loop fuel to n []
encode fuel to panics = some panics

unfoldable pub base_conv_by_tpl : ℕ → Text → Text → Text → Option (Outcome Text)
unfolding decode encode_loop
base_conv_by_tpl fuel src from to =
    if text_eq from to then some (done src) else encode fuel to (decode from src)

abbrev pub not_base : ℤ → Bool
not_base (pos n) = ltb 64 n || ltb n 2
not_base (negsuc n) = true

abbrev pub template : ℤ → Text
template (pos n) = take n base64_chars
template (negsuc n) = []

unfoldable pub base_conv : ℕ → Text → ℤ → ℤ → Option (Outcome Text)
unfolding base_conv_by_tpl
base_conv fuel src from to =
    if not_base from
    then some (done [])
    else if not_base to
    then some (done [])
    else base_conv_by_tpl fuel src (template from) (template to)

unfoldable pub base10_conv : ℕ → Text → ℤ → Option (Outcome Text)
unfolding base_conv
base10_conv fuel src to = base_conv fuel src (pos 10) to
