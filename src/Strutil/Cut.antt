-- ===== src/Strutil/Cut.antt =====
-- The operations of strutil/split.go.
use goutil.Prelude.{
  ℕ, ◌+◌, ◌-◌, Bool, true, false, ◌&&◌, ◌||◌, List, [], ◌∷◌, ◌++◌, map, leb, ◌==◌, if◌then◌else◌,
  length, take, drop,
}
use goutil.Prelude.Int.{ℤ, pos, negsuc, ◌+ℤ◌, ◌==ℤ◌, ltb_ℤ, leb_ℤ}
use goutil.Prelude.Outcome.{Outcome, done, panics}
use goutil.Text.{
  Text, codes, trim_space, trim_right_by, index_text, last_index_text, index_char, split_text,
}
use goutil.Text.SplitN.{split_text_n}

-- `s[:i]` where an index was found, else the default.
unfoldable pub before_first : Text → Text → Text
before_first s sep = elim (index_text s sep) [ pos i ↦ take i s | negsuc _ ↦ s ]

unfoldable pub after_first : Text → Text → Text
after_first s sep = elim (index_text s sep) [ pos i ↦ drop (i + length sep) s | negsuc _ ↦ [] ]

unfoldable pub before_last : Text → Text → Text
before_last s sep = elim (last_index_text s sep) [ pos i ↦ take i s | negsuc _ ↦ s ]

unfoldable pub after_last : Text → Text → Text
after_last s sep = elim (last_index_text s sep) [ pos i ↦ drop (i + length sep) s | negsuc _ ↦ [] ]

-- The text before the first separator, the text behind it, and whether there is one.
unfoldable pub cut : Text → Text → Text × Text × Bool
cut s sep = elim (index_text s sep) [
  | pos i ↦ (take i s, drop (i + length sep) s, true)
  | negsuc _ ↦ (s, [], false)
]

unfoldable pub quiet_cut : Text → Text → Text × Text
unfolding cut
quiet_cut s sep = let (before, after, _) = cut s sep in (before, after)

unfoldable pub must_cut : Text → Text → Outcome (Text × Text)
unfolding cut
must_cut s sep = let (before, after, ok) = cut s sep in if ok then done (before, after) else panics

unfoldable pub trim_cut : Text → Text → Text × Text
unfolding cut
trim_cut s sep = let (before, after, _) = cut s sep in (trim_space before, trim_space after)

abbrev pub is_empty : Text → Bool
is_empty [] = true
is_empty (c ∷ s) = false

-- The loop of `Split`: the items trimmed, the empty ones left out.
unfoldable pub split_loop : List Text → List Text
split_loop [] = []
split_loop (val ∷ vals) =
    let rest = split_loop vals in if is_empty (trim_space val) then rest else trim_space val ∷ rest

unfoldable pub split : Text → Text → List Text
unfolding split_loop
split s sep = if is_empty (trim_space s) then [] else split_loop (split_text (trim_space s) sep)

-- `strings.Join`
unfoldable pub join : List Text → Text → Text
join [] sep = []
join (w ∷ []) sep = w
join (w ∷ v ∷ ws) sep = w ++ sep ++ join (v ∷ ws) sep

-- The loop of `SplitN`; `count` items are in the result so far, and `n` may be negative.
unfoldable pub split_n_loop : ℤ → Text → ℕ → List Text → List Text
unfolding join
split_n_loop n sep count [] = []
split_n_loop n sep count (val ∷ vals) =
    let skipped = split_n_loop n sep count vals in
    let taken = split_n_loop n sep (count + 1) vals in
    if is_empty (trim_space val)
    then skipped
    else if pos (count + 1) ==ℤ n
    then trim_space (join (val ∷ vals) sep) ∷ []
    else trim_space val ∷ taken

unfoldable pub split_n : Text → Text → ℤ → List Text
unfolding split_n_loop
split_n s sep n =
    if is_empty (trim_space s) then [] else split_n_loop n sep 0 (split_text (trim_space s) sep)

unfoldable pub split_trimmed : Text → Text → List Text
split_trimmed s sep =
    if is_empty (trim_space s) then [] else map trim_space (split_text (trim_space s) sep)

-- As `split_trimmed`, with at most `n` parts.
unfoldable pub split_n_trimmed : Text → Text → ℤ → List Text
split_n_trimmed s sep n =
    if is_empty (trim_space s) then [] else map trim_space (split_text_n (trim_space s) sep n)

-- `xs[from:to]`
unfoldable pub slice : {A : Type 0} → List A → ℤ → ℤ → Outcome (List A)
slice xs (pos i) (pos j) =
    if leb i j && leb j (length xs) then done (take (j - i) (drop i xs)) else panics
slice xs _ _ = panics

abbrev pub stop_index : ℤ → ℤ → ℕ → ℤ
stop_index from count ln =
    if (count ==ℤ pos 0) || ltb_ℤ (pos ln) (from +ℤ count)
    then pos ln
    else if ltb_ℤ count (pos 0)
    then pos ln +ℤ count
    else from +ℤ count

unfoldable pub substr : Text → ℤ → ℤ → Outcome Text
unfolding slice
substr s from count =
    if leb_ℤ (pos (length s)) from then done [] else slice s from (stop_index from count (length s))

abbrev pub is_blank : ℕ → Bool
is_blank c = c == b' '

-- `strings.TrimRight(val[0:pos], " "), val[pos+skip:]` at a found position.
abbrev pub comment_at : Text → ℕ → ℕ → Text × Text
comment_at val skip i = (trim_right_by is_blank (take i val), drop (i + skip) val)

-- The comment at a position if it is one, and else the other result.
abbrev pub inline_at : Text → ℕ → Text × Text → ℤ → Text × Text
inline_at val skip other (pos i) = comment_at val skip i
inline_at val skip other (negsuc _) = other

unfoldable pub split_inline_comment : Text → Bool → Text × Text
split_inline_comment val true =
    inline_at val 1 (inline_at val 1 (val, []) (index_text val (codes " //")))
      (index_text val (codes " #"))
split_inline_comment val false =
    inline_at val 0 (inline_at val 0 (val, []) (index_text val (codes "//"))) (index_char val b'#')

unfoldable pub first_line : Text → Text
first_line output = elim (index_char output 10) [ pos i ↦ take i output | negsuc _ ↦ output ]
