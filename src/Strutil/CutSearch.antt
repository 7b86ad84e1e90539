-- ===== src/Strutil/CutSearch.antt =====
-- `Cut` at any separator: the first occurrence, and what is in front of it and behind it.
use goutil.Prelude.{
  ℕ, zero, suc, ◌+◌, ◌≤◌, ◌≡◌, refl, ap, ◌∙◌, sym, arith, Bool, true, false, List, [], ◌∷◌, ◌++◌,
  length, take, drop, Bool-cases, inl, inr, if_true, if_false,
}
use goutil.Prelude.Int.{ℤ, pos, negsuc}
use goutil.Text.{Text, index_text, index_from, has_prefix}
use goutil.Strutil.Cut.{cut, before_first, after_first}

prefix_split : (s sep : Text) → has_prefix s sep ≡ true → s ≡ sep ++ drop (length sep) s
unfolding has_prefix
prefix_split s [] h = refl
prefix_split [] (d ∷ sep) h = cc h
prefix_split (c ∷ s) (d ∷ sep) h =
    let e : s ≡ sep ++ drop (length sep) s = prefix_split s sep (ground arith) in
    let same : c ≡ d = ground arith in cc (e, same)

has_prefix-append : (sep rest : Text) → has_prefix (sep ++ rest) sep ≡ true
unfolding has_prefix
has_prefix-append [] rest = refl
has_prefix-append (d ∷ sep) rest = ground (arith, has_prefix-append sep rest)

-- What a search from position `i` tells of the text behind it.
IndexOf : ℕ → Text → Text → ℤ → Type 0
IndexOf i s sep (pos j) =
    (k : ℕ) × (j ≡ i + k) × (s ≡ take k s ++ sep ++ drop (k + length sep) s) × (k ≤ length s)
IndexOf i s sep (negsuc m) = m ≡ 0

not_found : (i : ℕ) (s sep : Text) → IndexOf i s sep (negsuc 0)
unfolding IndexOf
not_found i s sep = refl

found_here : (i : ℕ) (s sep : Text) → has_prefix s sep ≡ true → IndexOf i s sep (pos i)
unfolding IndexOf
found_here i s sep h =
    let e : length sep ≡ 0 + length sep = omega arith in
    (0, omega arith, prefix_split s sep h ∙ ap (λ n. sep ++ drop n s) e, omega arith)

found_later : (i c : ℕ) (s sep : Text) (z : ℤ) → IndexOf (i + 1) s sep z → IndexOf i (c ∷ s) sep z
unfolding IndexOf
found_later i c s sep (pos j) (k, at, parts, bound) =
    let e : suc (k + length sep) ≡ suc k + length sep = omega arith in
    (
      suc k,
      omega arith,
      ap (◌∷◌ c) parts ∙ ap (λ n. c ∷ (take k s ++ sep) ++ drop n (c ∷ s)) e,
      omega arith,
    )
found_later i c s sep (negsuc m) h = h

index_from-IndexOf : (i : ℕ) (s sep : Text) → IndexOf i s sep (index_from i sep s)
unfolding index_from
index_from-IndexOf i [] sep = elim (Bool-cases (has_prefix [] sep)) [
  | inl found ↦ rw found (found_here i [] sep found)
  | inr missing ↦ rw missing (not_found i [] sep)
]
index_from-IndexOf i (c ∷ s) sep = elim (Bool-cases (has_prefix (c ∷ s) sep)) [
  | inl found ↦ rw found (found_here i (c ∷ s) sep found)
  | inr missing ↦ rw missing (found_later i c s sep _ (index_from-IndexOf (i + 1) s sep))
]

-- The three results of `cut` at a result of the search.
abbrev cut_at : Text → Text → ℤ → Text × Text × Bool
cut_at s sep (pos i) = (take i s, drop (i + length sep) s, true)
cut_at s sep (negsuc _) = (s, [], false)

cut-cut_at : (s sep : Text) → cut s sep ≡ cut_at s sep (index_text s sep)
unfolding cut
cut-cut_at s sep = cut_cases (index_text s sep)
  where
    cut_cases :
        (z : ℤ)
        → (elim z [ pos i ↦ (take i s, drop (i + length sep) s, true) | negsuc _ ↦ (s, [], false) ])
          ≡ cut_at s sep z
    cut_cases (pos i) = refl
    cut_cases (negsuc n) = refl

cut_at-parts :
    (s sep : Text) (z : ℤ)
    → IndexOf 0 s sep z
    → (cut_at s sep z).2 ≡ true
    → s ≡ (cut_at s sep z).0 ++ sep ++ (cut_at s sep z).1
unfolding IndexOf
cut_at-parts s sep (pos j) (k, at, parts, bound) ok =
    let e : k ≡ j = omega arith in parts ∙ ap (λ n. take n s ++ sep ++ drop (n + length sep) s) e
cut_at-parts s sep (negsuc m) h ok = cc ok

-- Where `Cut` finds the separator, the text is what is in front of it, the separator, and what is
-- behind it.
pub cut-parts : (s sep : Text) → (cut s sep).2 ≡ true → s ≡ (cut s sep).0 ++ sep ++ (cut s sep).1
unfolding index_text
cut-parts s sep ok =
    let e = cut-cut_at s sep in
    cut_at-parts s sep (index_text s sep) (index_from-IndexOf 0 s sep) (ap (λ r. r.2) (sym e) ∙ ok)
    ∙ ap (λ r. r.0 ++ sep ++ r.1) (sym e)

index_from-here : (i : ℕ) (s sep : Text) → has_prefix s sep ≡ true → index_from i sep s ≡ pos i
unfolding index_from
index_from-here i [] sep h = if_true _ _ h
index_from-here i (c ∷ s) sep h = if_true _ _ h

index_from-first :
    (i : ℕ) (b sep a : Text)
    → (j : ℕ) × (index_from i sep (b ++ (sep ++ a)) ≡ pos j) × (j ≤ i + length b)
unfolding index_from
index_from-first i [] sep a =
    (i, index_from-here i (sep ++ a) sep (has_prefix-append sep a), omega arith)
index_from-first i (c ∷ b) sep a = elim (Bool-cases (has_prefix (c ∷ b ++ (sep ++ a)) sep)) [
  | inl found ↦ (i, if_true _ _ found, omega arith)
  | inr missing ↦
      let (j, e, h) = index_from-first (i + 1) b sep a in (j, if_false _ _ missing ∙ e, omega arith)
]

length-take_le : {A : Type 0} (n : ℕ) (xs : List A) → length (take n xs) ≤ n
length-take_le zero xs = omega arith
length-take_le (suc n) [] = omega arith
length-take_le (suc n) (x ∷ xs) = omega (arith, length-take_le n xs)

-- `Cut` finds a separator that occurs, and what is in front of the one it finds is no longer than
-- what is in front of any occurrence: it cuts at the first.
pub cut-first :
    (b sep a : Text)
    → ((cut (b ++ (sep ++ a)) sep).2 ≡ true) × (length (cut (b ++ (sep ++ a)) sep).0 ≤ length b)
unfolding index_text
cut-first b sep a =
    let s = b ++ (sep ++ a) in
    let (j, at, h) = index_from-first 0 b sep a in
    let e : cut s sep ≡ (take j s, drop (j + length sep) s, true) =
      cut-cut_at s sep ∙ ap (cut_at s sep) at in
    let shorter : length (take j s) ≤ length b = omega (arith, length-take_le j s) in
    (ap (λ r. r.2) e, rw e shorter)

-- `BeforeFirst` and `AfterFirst` are the two texts of `Cut`, whether or not the separator occurs.
pub before_first-cut :
    (s sep : Text) → (before_first s sep ≡ (cut s sep).0) × (after_first s sep ≡ (cut s sep).1)
unfolding before_first after_first cut
before_first-cut s sep = same_cases (index_text s sep)
  where
    same_cases :
        (z : ℤ)
        → ((elim z [ pos i ↦ take i s | negsuc _ ↦ s ])
            ≡ (elim z as (λ _. Text × Text × Bool) [
              | pos i ↦ (take i s, drop (i + length sep) s, true)
              | negsuc _ ↦ (s, [], false)
            ]).0)
          × ((elim z [ pos i ↦ drop (i + length sep) s | negsuc _ ↦ [] ])
              ≡ (elim z as (λ _. Text × Text × Bool) [
                | pos i ↦ (take i s, drop (i + length sep) s, true)
                | negsuc _ ↦ (s, [], false)
              ]).1)
    same_cases (pos i) = (refl, refl)
    same_cases (negsuc n) = (refl, refl)

-- `Cut` finds a separator that occurs; its two texts make the whole with the separator between
-- them, and the first is no longer than what is in front of any occurrence: it cuts at the first.
pub cut-first_parts :
    (b sep a : Text)
    → (let r = cut (b ++ (sep ++ a)) sep in
        (r.2 ≡ true) × (length r.0 ≤ length b) × (b ++ (sep ++ a) ≡ r.0 ++ sep ++ r.1))
cut-first_parts b sep a =
    let (found, shorter) = cut-first b sep a in
    (found, shorter, cut-parts (b ++ (sep ++ a)) sep found)
