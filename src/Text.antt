-- ===== src/Text.antt =====
-- What the program uses of Go's package strings. A string is the list of its code points, which is
-- exact for valid UTF-8; `unicode.IsSpace` is written out.
pub mod Laws
pub mod Splits
pub mod SplitN
pub mod Trim
pub mod TrimFirst
use Prim.Native.Char.{code}
use Prim.Native.String.{String}
use goutil.Prelude.{
  ℕ, zero, suc, ◌+◌, Bool, true, false, not, ◌&&◌, ◌||◌, List, [], ◌∷◌, ◌++◌, Option, none, some,
  ltb, leb, ◌==◌, if◌then◌else◌, ◌-◌, length, map,
}
use goutil.Prelude.Int.{ℤ, pos, negsuc}
use mathlib.Core.List.{reverse}

abbrev pub Text : Type 0
Text = List ℕ

-- The code points of a literal.
abbrev pub codes : String → Text
codes String.[] = []
codes (String.◌∷◌ c s) = code c ∷ codes s

-- `unicode.IsSpace`
unfoldable pub is_space : ℕ → Bool
is_space c =
    (leb 9 c && leb c 13)
    || c == 32
    || c == 0x85
    || c == 0xa0
    || c == 0x1680
    || (leb 0x2000 c && leb c 0x200a)
    || c == 0x2028
    || c == 0x2029
    || c == 0x202f
    || c == 0x205f
    || c == 0x3000

-- `strings.TrimLeftFunc`
unfoldable pub trim_left_by : (ℕ → Bool) → Text → Text
trim_left_by p [] = []
trim_left_by p (c ∷ s) = if p c then trim_left_by p s else c ∷ s

unfoldable pub trim_right_by : (ℕ → Bool) → Text → Text
unfolding trim_left_by
trim_right_by p s = reverse (trim_left_by p (reverse s))

-- `strings.TrimSpace`
unfoldable pub trim_space : Text → Text
unfolding trim_left_by trim_right_by
trim_space s = trim_right_by is_space (trim_left_by is_space s)

-- `==` on strings.
unfoldable pub text_eq : Text → Text → Bool
text_eq [] [] = true
text_eq (c ∷ s) (d ∷ t) = c == d && text_eq s t
text_eq _ _ = false

-- `strings.IndexByte`, at an ASCII byte.
unfoldable pub index_char_from : ℕ → ℕ → Text → ℤ
index_char_from i b [] = negsuc 0
index_char_from i b (c ∷ s) = if c == b then pos i else index_char_from (i + 1) b s

unfoldable pub index_char : Text → ℕ → ℤ
unfolding index_char_from
index_char s b = index_char_from 0 b s

unfoldable pub contains_char : Text → ℕ → Bool
contains_char [] b = false
contains_char (c ∷ s) b = c == b || contains_char s b

-- `strings.HasPrefix`
unfoldable pub has_prefix : Text → Text → Bool
has_prefix s [] = true
has_prefix [] (d ∷ p) = false
has_prefix (c ∷ s) (d ∷ p) = c == d && has_prefix s p

-- `strings.HasSuffix`
unfoldable pub has_suffix : Text → Text → Bool
unfolding has_prefix
has_suffix s p = has_prefix (reverse s) (reverse p)

-- A character in front of the first part.
abbrev pub push_head : ℕ → List Text → List Text
push_head c [] = (c ∷ []) ∷ []
push_head c (w ∷ ws) = (c ∷ w) ∷ ws

-- `strings.Split` at a separator of one character.
unfoldable pub split_char : ℕ → Text → List Text
split_char sep [] = [] ∷ []
split_char sep (c ∷ s) =
    let parts = split_char sep s in if c == sep then [] ∷ parts else push_head c parts

-- `strings.Join` with a separator of one character.
unfoldable pub join_char : ℕ → List Text → Text
join_char sep [] = []
join_char sep (w ∷ []) = w
join_char sep (w ∷ v ∷ ws) = w ++ (sep ∷ join_char sep (v ∷ ws))

-- `strings.SplitN(s, sep, 2)` at one character: the text before the first separator, and the text
-- behind it if there is one.
unfoldable pub cut_char : ℕ → Text → Text × Option Text
cut_char sep [] = ([], none)
cut_char sep (c ∷ s) =
    let (before, after) = cut_char sep s in if c == sep then ([], some s) else (c ∷ before, after)

-- `strings.Index`: the position of the first occurrence, or -1.
unfoldable pub index_from : ℕ → Text → Text → ℤ
index_from i sep [] = if has_prefix [] sep then pos i else negsuc 0
index_from i sep (c ∷ s) =
    let rest = index_from (i + 1) sep s in if has_prefix (c ∷ s) sep then pos i else rest

unfoldable pub index_text : Text → Text → ℤ
unfolding index_from
index_text s sep = index_from 0 sep s

-- `strings.LastIndex`
unfoldable pub last_index_from : ℕ → Text → Text → ℤ
last_index_from i sep [] = if has_prefix [] sep then pos i else negsuc 0
last_index_from i sep (c ∷ s) = elim (last_index_from (i + 1) sep s) [
  | pos j ↦ pos j
  | negsuc _ ↦ if has_prefix (c ∷ s) sep then pos i else negsuc 0
]

unfoldable pub last_index_text : Text → Text → ℤ
unfolding last_index_from
last_index_text s sep = last_index_from 0 sep s

-- `strings.Contains`
unfoldable pub contains_text : Text → Text → Bool
contains_text [] sub = has_prefix [] sub
contains_text (c ∷ s) sub = has_prefix (c ∷ s) sub || contains_text s sub

-- `strings.Split`, where `skip` characters of a separator are still to pass; an empty separator
-- splits behind each character.
unfoldable pub split_from : ℕ → Text → Text → List Text
split_from skip sep [] = [] ∷ []
split_from (suc skip) sep (c ∷ s) = split_from skip sep s
split_from zero sep (c ∷ s) =
    let parts = split_from zero sep s in
    let behind = split_from (length sep - 1) sep s in
    if has_prefix (c ∷ s) sep then [] ∷ behind else push_head c parts

unfoldable pub split_text : Text → Text → List Text
unfolding split_from
split_text s [] = map (λ c. c ∷ []) s
split_text s (d ∷ sep) = split_from 0 (d ∷ sep) s

-- The bytes of a text in UTF-8, which `len` counts.
abbrev pub char_bytes : ℕ → ℕ
char_bytes c = if ltb c 0x80 then 1 else if ltb c 0x800 then 2 else if ltb c 0x10000 then 3 else 4

unfoldable pub byte_len : Text → ℕ
byte_len [] = 0
byte_len (c ∷ s) = char_bytes c + byte_len s

-- A text without its last character.
unfoldable pub drop_last : Text → Text
drop_last [] = []
drop_last (c ∷ []) = []
drop_last (c ∷ d ∷ s) = c ∷ drop_last (d ∷ s)

-- The last character of a text, and the given one where it is empty.
unfoldable pub last_or : ℕ → Text → ℕ
last_or c [] = c
last_or c (d ∷ s) = last_or d s
