-- ===== src/Cmdline/Nodes.antt =====
-- The space-separated nodes of an argument that the builder writes, and what the parser makes of them.
use goutil.Prelude.{
  ℕ, suc, ◌+◌, ◌-◌, ◌≡◌, ◌≢◌, refl, sym, ap, ◌∙◌, arith, Bool, true, false, not, ◌&&◌, ◌||◌, List,
  [], ◌∷◌, ◌++◌, append_assoc, append-nil, some, ◌==◌, if◌then◌else◌, length, length-append,
  get_elem?, get_elem?-some, get_elem?-append_right, take,
}
use goutil.Prelude.Outcome.{done}
use goutil.Arrutil.Search.{index-done}
use goutil.Text.{Text, is_space, contains_char, join_char}
use goutil.Text.Laws.{Every}
use goutil.Cmdline.{
  double_quote, single_quote, LineParser, append_temp_node, slice, parse_node, in_quotes,
  quote_start, plain_node, parse_nodes,
}

-- A character that needs no quotes: no space and no quote.
abbrev pub word_char : ℕ → Bool
word_char c = not (is_space c) && not (c == double_quote) && not (c == single_quote)

abbrev pub IsWord : Text → Type 0
IsWord w = Every word_char w × (w ≢ [])

abbrev pub AllWords : List Text → Type 0
AllWords [] = Unit
AllWords (w ∷ ws) = IsWord w × AllWords ws

-- The nodes behind the first of a quoted text: the last one ends in the quote.
abbrev pub tail_nodes : Text → List Text → List Text
tail_nodes v [] = (v ++ double_quote ∷ []) ∷ []
tail_nodes v (u ∷ ws) = v ∷ tail_nodes u ws

-- The nodes of the argument that consists of the given words, one space between two.
abbrev pub nodes_of : List Text → List Text
nodes_of [] = (double_quote ∷ double_quote ∷ []) ∷ []
nodes_of (w ∷ []) = w ∷ []
nodes_of (w ∷ v ∷ ws) = (double_quote ∷ w) ∷ tail_nodes v ws

-- A parser on its way through a line: the arguments so far, the open quote, the text so far.
abbrev pub running : Text → List Text → List Text → ℕ → Text → LineParser
running line nodes args quote temp = record {
  parsed = true;
  line = line;
  parse_env = false;
  nodes = nodes;
  args = args;
  quote_char = quote;
  quote_index = 0;
  temp_node = temp;
}

last_char :
    (c : ℕ) (w : Text)
    → Every word_char (c ∷ w)
    → (l : ℕ) × (get_elem? (c ∷ w) (length (c ∷ w) - 1) ≡ some l) × (word_char l ≡ true)
last_char c [] (h, _) = (c, refl, h)
last_char c (d ∷ w) (_, h) =
    let (l, g, k) = last_char d w h in
    let e : suc (suc (length w)) - 1 ≡ suc (suc (length w) - 1) = omega arith in (l, rw e g, k)

last_quote :
    (v : Text)
    → get_elem? (v ++ double_quote ∷ []) (length (v ++ double_quote ∷ []) - 1) ≡ some double_quote
last_quote v =
    let e : length (v ++ double_quote ∷ []) - 1 ≡ length v + 0 =
      omega (arith, length-append v (double_quote ∷ [])) in
    rw e (get_elem?-append_right v (double_quote ∷ []) 0)

pub parse_node_lem :
    (p : LineParser) (node : Text) (start end : ℕ)
    → get_elem? node 0 ≡ some start
    → get_elem? node (length node - 1) ≡ some end
    → parse_node p node ≡ (
        if not (p.quote_char == 0)
        then in_quotes p node (length node - 1) end
        else if start == double_quote || start == single_quote
        then quote_start p node (length node - 1) start end
        else if end == double_quote || end == single_quote
        then done (record p { args = p.args ++ node ∷ [] })
        else done (plain_node p node))
unfolding parse_node
parse_node_lem p node start end gs ge =
    rw (index-done node 0 gs, index-done node (length node - 1) ge)

Every-not-contains :
    (w : Text)
    → Every word_char w
    → (contains_char w double_quote ≡ false) × (contains_char w single_quote ≡ false)
unfolding contains_char
Every-not-contains [] h = (refl, refl)
Every-not-contains (c ∷ w) (hc, h) = ground (arith, Every-not-contains w h)

take_all : (s t : Text) → take (length s) (s ++ t) ≡ s
take_all [] t = refl
take_all (c ∷ s) t = ap (◌∷◌ c) (take_all s t)

slice_front : (s t : Text) → slice (s ++ t) 0 (length s) ≡ done s
unfolding slice
slice_front s t =
    let e : length s - 0 ≡ length s = omega arith in
    let front : take (length s - 0) (s ++ t) ≡ s = rw e (take_all s t) in
    ground (arith, length-append s t)

slice_tail : (c : ℕ) (s : Text) (hi : ℕ) → hi ≡ suc (length s) → slice (c ∷ s) 1 hi ≡ done s
unfolding slice
slice_tail c s hi h =
    let e : hi - 1 ≡ length s = omega arith in
    let all : take (hi - 1) s ≡ s =
      rw e (ap (take (length s)) (sym (append-nil s)) ∙ take_all s []) in
    ground arith

module _ (line : Text) (nodes : List Text) (args : List Text) where
  -- A word outside quotes is an argument.
  pub parse_node-word :
      (c : ℕ) (w : Text)
      → Every word_char (c ∷ w)
      → parse_node (running line nodes args 0 []) (c ∷ w)
        ≡ done (running line nodes (args ++ (c ∷ w) ∷ []) 0 [])
  unfolding plain_node
  parse_node-word c w h =
      let (l, g, k) = last_char c w h in
      let (no_dq, no_sq) = Every-not-contains (c ∷ w) h in
      parse_node_lem (running line nodes args 0 []) (c ∷ w) c l refl g ∙ ground (arith, h.0)

  -- A quote before a word opens a quoted text.
  parse_node-open :
      (c : ℕ) (w : Text)
      → Every word_char (c ∷ w)
      → parse_node (running line nodes args 0 []) (double_quote ∷ c ∷ w)
        ≡ done (running line nodes args double_quote (c ∷ w))
  unfolding quote_start
  parse_node-open c w h =
      let (l, g, k) = last_char c w h in
      let e : suc (suc (length w)) - 1 ≡ suc (suc (length w) - 1) = omega arith in
      parse_node_lem (running line nodes args 0 []) (double_quote ∷ c ∷ w) double_quote l refl
        (rw e g)
      ∙ ground (arith, slice_tail double_quote (c ∷ w) (suc (suc (length w)) - 1 + 1) (omega arith))

  parse_node-middle :
      (temp : Text) (c : ℕ) (w : Text)
      → Every word_char (c ∷ w)
      → parse_node (running line nodes args double_quote temp) (c ∷ w)
        ≡ done (running line nodes args double_quote ((temp ++ b' ' ∷ []) ++ (c ∷ w)))
  unfolding in_quotes
  parse_node-middle temp c w h =
      let (l, g, k) = last_char c w h in
      parse_node_lem (running line nodes args double_quote temp) (c ∷ w) c l refl g ∙ ground arith

  parse_node-close :
      (temp v : Text)
      → parse_node (running line nodes args double_quote temp) (v ++ double_quote ∷ [])
        ≡ done (running line nodes (args ++ ((temp ++ b' ' ∷ []) ++ v) ∷ []) 0 [])
  unfolding in_quotes append_temp_node
  parse_node-close temp v =
      let node = v ++ double_quote ∷ [] in
      let e : length node - 1 ≡ length v = omega (arith, length-append v (double_quote ∷ [])) in
      let (start, g) = get_elem?-some node 0 (omega (arith, length-append v (double_quote ∷ []))) in
      parse_node_lem (running line nodes args double_quote temp) node start double_quote g
        (last_quote v)
      ∙ rw e (ground (arith, slice_front v (double_quote ∷ [])))

  -- The nodes behind an opened quote close it, with the words joined by one space.
  parse_nodes-tail :
      (temp v : Text) (ws rest : List Text)
      → AllWords (v ∷ ws)
      → parse_nodes (running line nodes args double_quote temp) (tail_nodes v ws ++ rest)
        ≡ parse_nodes
            (running line nodes (args ++ (temp ++ (b' ' ∷ join_char b' ' (v ∷ ws))) ∷ []) 0 [])
            rest
  unfolding parse_nodes join_char
  parse_nodes-tail temp [] ws rest ((h, ne), k) = absurd (ne refl)
  parse_nodes-tail temp (c ∷ v) [] rest h =
      rw (parse_node-close temp (c ∷ v), append_assoc temp (b' ' ∷ []) (c ∷ v))
  parse_nodes-tail temp (c ∷ v) (u ∷ ws) rest ((h, ne), k) =
      rw
        (
          parse_node-middle temp c v h,
          parse_nodes-tail ((temp ++ b' ' ∷ []) ++ (c ∷ v)) u ws rest k,
        )
        (ap (λ t. parse_nodes (running line nodes (args ++ t ∷ []) 0 []) rest) (simp append_assoc))

  -- The nodes of an argument are read back as that argument.
  pub parse_nodes-nodes_of :
      (ws rest : List Text)
      → AllWords ws
      → parse_nodes (running line nodes args 0 []) (nodes_of ws ++ rest)
        ≡ parse_nodes (running line nodes (args ++ join_char b' ' ws ∷ []) 0 []) rest
  parse_nodes-nodes_of [] rest h = unfold parse_nodes join_char in refl
  parse_nodes-nodes_of ([] ∷ ws) rest ((h, ne), k) = absurd (ne refl)
  parse_nodes-nodes_of ((c ∷ w) ∷ []) rest ((h, ne), k) =
      unfold parse_nodes join_char in rw (parse_node-word c w h)
  parse_nodes-nodes_of ((c ∷ w) ∷ v ∷ ws) rest ((h, ne), k) =
      unfold parse_nodes join_char in
      rw (parse_node-open c w h) (parse_nodes-tail (c ∷ w) v ws rest k)
