-- ===== src/Cmdline/Written.antt =====
-- What `LineBuilder` writes for arguments of words: nodes with one space between two.
use mathlib.Core.Path.{subst}
use goutil.Prelude.{
  ℕ, ◌+◌, ◌≡◌, refl, sym, ap, ◌∙◌, arith, Bool, true, false, not, ◌&&◌, ◌||◌, ◌⊎◌, inl, inr,
  Bool-cases, ==_iff, List, [], ◌∷◌, ◌++◌, map, append_assoc, append-nil, ◌==◌, if◌then◌else◌,
  length,
}
use goutil.Prelude.Int.{negsuc}
use goutil.Text.{Text, is_space, index_char_from, index_char, contains_char, join_char}
use goutil.Text.Laws.{Every, Every-append}
use goutil.Cmdline.{double_quote, single_quote}
use goutil.Cmdline.Builder.{quote_for, write_string, add_array}
use goutil.Cmdline.Nodes.{word_char, AllWords, tail_nodes, nodes_of}

abbrev pub AllArgs : List (List Text) → Type 0
AllArgs [] = Unit
AllArgs (ws ∷ args) = AllWords ws × AllArgs args

-- The text of an argument: its words with one space between two.
abbrev pub arg_text : List Text → Text
arg_text = join_char b' '

abbrev pub all_nodes : List (List Text) → List Text
all_nodes [] = []
all_nodes (ws ∷ args) = nodes_of ws ++ all_nodes args

-- No quote stands in the text.
abbrev pub unquoted_char : ℕ → Bool
unquoted_char c = not (c == double_quote) && not (c == single_quote)

pub Every-word-unquoted : (w : Text) → Every word_char w → Every unquoted_char w
Every-word-unquoted [] h = tt
Every-word-unquoted (c ∷ w) (hc, h) = (ground arith, Every-word-unquoted w h)

pub arg_text-unquoted : (ws : List Text) → AllWords ws → Every unquoted_char (arg_text ws)
unfolding join_char
arg_text-unquoted [] h = tt
arg_text-unquoted (w ∷ []) ((h, ne), k) = Every-word-unquoted w h
arg_text-unquoted (w ∷ v ∷ ws) ((h, ne), k) =
    Every-append unquoted_char w _ (Every-word-unquoted w h) (refl, arg_text-unquoted (v ∷ ws) k)

pub index_char_from-absent :
    (s : Text) (i b : ℕ)
    → (b ≡ double_quote) ⊎ (b ≡ single_quote)
    → Every unquoted_char s
    → index_char_from i b s ≡ negsuc 0
unfolding index_char_from
index_char_from-absent [] i b w h = refl
index_char_from-absent (c ∷ s) i b w (hc, h) =
    ground (arith, index_char_from-absent s (i + 1) b w h)

pub contains_char-append :
    (s t : Text) (b : ℕ) → contains_char (s ++ t) b ≡ (contains_char s b || contains_char t b)
unfolding contains_char
contains_char-append [] t b = refl
contains_char-append (c ∷ s) t b = ground (arith, contains_char-append s t b)

pub word_char-ne-space : (c : ℕ) → word_char c ≡ true → (c == b' ') ≡ false
unfolding is_space
word_char-ne-space c h = elim (Bool-cases (c == b' ')) [
  | inl e ↦ cc (rw ((==_iff c b' ').0 e) at h)
  | inr n ↦ n
]

pub word-contains_char : (w : Text) → Every word_char w → contains_char w b' ' ≡ false
unfolding contains_char
word-contains_char [] h = refl
word-contains_char (c ∷ w) (hc, h) = rw (word_char-ne-space c hc) (word-contains_char w h)

pub length_test : (c : ℕ) (b : Text) → (length (c ∷ b) == 0) ≡ false
length_test c b = ground arith

-- An argument is quoted exactly when it is empty or has several words.
abbrev pub quote_of : List Text → ℕ
quote_of [] = double_quote
quote_of (w ∷ []) = 0
quote_of (w ∷ v ∷ ws) = double_quote

pub quote_for-quote_of : (ws : List Text) → AllWords ws → quote_for (arg_text ws) ≡ quote_of ws
unfolding quote_for index_char
quote_for-quote_of ws h =
    let text = arg_text ws in
    let no_dq = index_char_from-absent text 0 double_quote (inl refl) (arg_text-unquoted ws h) in
    let no_sq = index_char_from-absent text 0 single_quote (inr refl) (arg_text-unquoted ws h) in
    rw (no_dq, no_sq) (cases ws h)
  where
    cases :
        (ws : List Text)
        → AllWords ws
        → (if length (arg_text ws) == 0 || contains_char (arg_text ws) b' ' then b'"' else 0)
          ≡ quote_of ws
    cases [] h = unfold join_char in refl
    cases ([] ∷ ws) ((h, ne), k) = absurd (ne refl)
    cases ((c ∷ w) ∷ []) ((h, ne), k) =
        unfold join_char in rw (length_test c w, word-contains_char (c ∷ w) h)
    cases ((c ∷ w) ∷ v ∷ ws) ((h, ne), k) =
        unfold join_char in
        rw (contains_char-append (c ∷ w) (b' ' ∷ arg_text (v ∷ ws)) b' ')
          (unfold contains_char in ground arith)

pub join_char-tail_nodes :
    (v : Text) (ws : List Text)
    → join_char b' ' (tail_nodes v ws) ≡ arg_text (v ∷ ws) ++ double_quote ∷ []
unfolding join_char
join_char-tail_nodes v [] = refl
join_char-tail_nodes v (u ∷ []) = sym (append_assoc v (b' ' ∷ u) (double_quote ∷ []))
join_char-tail_nodes v (u ∷ w ∷ ws) =
    ap (λ t. v ++ (b' ' ∷ t)) (join_char-tail_nodes u (w ∷ ws))
    ∙ sym (append_assoc v (b' ' ∷ arg_text (u ∷ w ∷ ws)) (double_quote ∷ []))

pub join_char-nodes :
    (x v : Text) (ws : List Text)
    → join_char b' ' (x ∷ tail_nodes v ws) ≡ x ++ (b' ' ∷ (arg_text (v ∷ ws) ++ double_quote ∷ []))
join_char-nodes x v [] = unfold join_char in refl
join_char-nodes x v (u ∷ ws) =
    unfold join_char in ap (λ t. x ++ (b' ' ∷ t)) (join_char-tail_nodes v (u ∷ ws))

-- What the builder writes for an argument: the nodes with a space between two.
pub write_string-nodes_of :
    (c : ℕ) (b : Text) (ws : List Text)
    → AllWords ws
    → write_string (c ∷ b) (arg_text ws) ≡ (c ∷ b) ++ (b' ' ∷ join_char b' ' (nodes_of ws))
unfolding write_string
write_string-nodes_of c b [] h =
    rw (quote_for-quote_of [] h, length_test c b) (unfold join_char in simp append_assoc)
write_string-nodes_of c b (w ∷ []) h =
    rw (quote_for-quote_of (w ∷ []) h, length_test c b)
      (unfold join_char in append_assoc (c ∷ b) (b' ' ∷ []) w)
write_string-nodes_of c b (w ∷ v ∷ ws) h =
    rw (quote_for-quote_of (w ∷ v ∷ ws) h, length_test c b, join_char-nodes (double_quote ∷ w) v ws)
      (unfold join_char in simp append_assoc)

-- Joining two lists of nodes.
pub join_char-append :
    (x : Text) (xs : List Text) (y : Text) (ys : List Text)
    → join_char b' ' ((x ∷ xs) ++ (y ∷ ys))
      ≡ join_char b' ' (x ∷ xs) ++ (b' ' ∷ join_char b' ' (y ∷ ys))
unfolding join_char
join_char-append x [] y ys = refl
join_char-append x (z ∷ xs) y ys =
    ap (λ t. x ++ (b' ' ∷ t)) (join_char-append z xs y ys)
    ∙ sym (append_assoc x (b' ' ∷ join_char b' ' (z ∷ xs)) _)

pub nodes_of-cons : (ws : List Text) → (n : Text) × (ns : List Text) × (nodes_of ws ≡ n ∷ ns)
nodes_of-cons [] = (_, _, refl)
nodes_of-cons (w ∷ []) = (_, _, refl)
nodes_of-cons (w ∷ v ∷ ws) = (_, _, refl)

pub join_char-nodes_of :
    (x : Text) (xs ws : List Text)
    → (join_char b' ' (x ∷ xs)) ++ (b' ' ∷ join_char b' ' (nodes_of ws))
      ≡ join_char b' ' ((x ∷ xs) ++ nodes_of ws)
join_char-nodes_of x xs ws =
    let (n, ns, e) = nodes_of-cons ws in rw e (sym (join_char-append x xs n ns))

pub join_char-ne-nil :
    (c : ℕ) (x : Text) (xs : List Text) → (t : Text) × (join_char b' ' ((c ∷ x) ∷ xs) ≡ c ∷ t)
join_char-ne-nil c x [] = (x, unfold join_char in refl)
join_char-ne-nil c x (y ∷ xs) = (x ++ (b' ' ∷ join_char b' ' (y ∷ xs)), unfold join_char in refl)

-- The builder's text is its nodes with a space between two.
pub add_array-all_nodes :
    (c : ℕ) (x : Text) (xs : List Text) (args : List (List Text))
    → AllArgs args
    → add_array (join_char b' ' ((c ∷ x) ∷ xs)) (map arg_text args)
      ≡ join_char b' ' ((c ∷ x) ∷ (xs ++ all_nodes args))
unfolding add_array
add_array-all_nodes c x xs [] h = rw append-nil
add_array-all_nodes c x xs (ws ∷ args) (h, k) =
    let (t, e) = join_char-ne-nil c x xs in
    let written = write_string-nodes_of c t ws h in
    let here : write_string (join_char b' ' ((c ∷ x) ∷ xs)) (arg_text ws)
        ≡ join_char b' ' ((c ∷ x) ∷ (xs ++ nodes_of ws)) =
      subst (λ b. write_string b (arg_text ws) ≡ b ++ (b' ' ∷ join_char b' ' (nodes_of ws))) (sym e)
        written
      ∙ join_char-nodes_of (c ∷ x) xs ws in
    ap (λ b. add_array b (map arg_text args)) here
    ∙ add_array-all_nodes c x (xs ++ nodes_of ws) args k
    ∙ ap (λ l. join_char b' ' ((c ∷ x) ∷ l)) (append_assoc xs (nodes_of ws) (all_nodes args))
