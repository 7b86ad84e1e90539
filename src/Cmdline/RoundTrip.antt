-- ===== src/Cmdline/RoundTrip.antt =====
-- A command line that the builder writes is parsed back into its arguments.
use mathlib.Core.List.{cons-ne-nil}
use goutil.Prelude.{ℕ, ◌≡◌, ◌≢◌, refl, ap, ◌∙◌, List, [], ◌∷◌, ◌++◌, map, append_assoc, append-nil}
use goutil.Prelude.Outcome.{done}
use goutil.Text.{Text, split_char, join_char}
use goutil.Text.Laws.{Every}
use goutil.Text.Splits.{split_char-join_char}
use goutil.Cmdline.{
  LineParser, new_parser, parse_node, parse_nodes, finish, explode, parse_line, parse_line_text,
}
use goutil.Cmdline.Builder.{quote_for, write_string, add_array, new_builder, line_build}
use goutil.Cmdline.Nodes.{word_char, IsWord, running, parse_node-word, parse_nodes-nodes_of}
use goutil.Cmdline.Written.{
  AllArgs, arg_text, all_nodes, quote_for-quote_of, nodes_of-cons, join_char-ne-nil,
  add_array-all_nodes,
}
use goutil.Cmdline.Lines.{
  AllSolid, all_nodes-AllSolid, Every-word-solid, AllSolid-NoneHas, trim_space-nodes,
}

pub parse_nodes-all_nodes :
    (line : Text) (nodes args : List Text) (more : List (List Text))
    → AllArgs more
    → parse_nodes (running line nodes args 0 []) (all_nodes more)
      ≡ done (running line nodes (args ++ map arg_text more) 0 [])
parse_nodes-all_nodes line nodes args [] h = rw append-nil (unfold parse_nodes in refl)
parse_nodes-all_nodes line nodes args (ws ∷ more) (h, k) =
    parse_nodes-nodes_of line nodes args ws (all_nodes more) h
    ∙ parse_nodes-all_nodes line nodes (args ++ arg_text ws ∷ []) more k
    ∙ ap (λ l. done (running line nodes l 0 [])) (append_assoc args (arg_text ws ∷ []) _)

pub parse_nodes-step :
    (p q : LineParser) (c : ℕ) (n : Text) (rest : List Text)
    → parse_node p (c ∷ n) ≡ done q
    → parse_nodes p ((c ∷ n) ∷ rest) ≡ parse_nodes q rest
parse_nodes-step p q c n rest h = unfold parse_nodes in rw h

pub explode_run :
    (line node : Text) (nodes : List Text) (q : LineParser)
    → nodes ≢ []
    → parse_nodes (running line (node ∷ nodes) [] 0 []) (node ∷ nodes) ≡ done q
    → explode (running line [] [] 0 []) (node ∷ nodes) ≡ done (finish q)
unfolding explode
explode_run line node [] q ne h = absurd (ne refl)
explode_run line node (n ∷ nodes) q ne h = rw h

pub explode-all_nodes :
    (line : Text) (c : ℕ) (bin : Text) (args : List (List Text))
    → Every word_char (c ∷ bin)
    → AllArgs args
    → (p : LineParser) × (explode (running line [] [] 0 []) ((c ∷ bin) ∷ all_nodes args) ≡ done p)
      × (p.args ≡ (c ∷ bin) ∷ map arg_text args)
unfolding finish explode
explode-all_nodes line c bin [] h k = (_, refl, refl)
explode-all_nodes line c bin (ws ∷ args) h k =
    let (n, ns, e) = nodes_of-cons ws in
    let nodes = all_nodes (ws ∷ args) in
    let ne : nodes ≢ [] = rw e (cons-ne-nil n (ns ++ all_nodes args)) in
    let run =
      parse_nodes-step _ _ c bin nodes (parse_node-word line ((c ∷ bin) ∷ nodes) [] c bin h)
      ∙ parse_nodes-all_nodes line ((c ∷ bin) ∷ nodes) ((c ∷ bin) ∷ []) (ws ∷ args) k in
    (_, explode_run line (c ∷ bin) nodes _ ne run, refl)

pub line_build-all_nodes :
    (c : ℕ) (bin : Text) (args : List (List Text))
    → Every word_char (c ∷ bin)
    → AllArgs args
    → line_build (c ∷ bin) (map arg_text args) ≡ join_char b' ' ((c ∷ bin) ∷ all_nodes args)
unfolding line_build new_builder join_char
line_build-all_nodes c bin args h k =
    let unquoted : quote_for (c ∷ bin) ≡ 0 =
      quote_for-quote_of ((c ∷ bin) ∷ []) ((h, cons-ne-nil c bin), tt) in
    let first : write_string [] (c ∷ bin) ≡ c ∷ bin = unfold write_string in rw unquoted in
    ap (λ b. add_array b (map arg_text args)) first ∙ add_array-all_nodes c bin [] args k

pub parse_line_text-explode :
    (getenv : Text → Text) (raw line : Text) (c : ℕ) (t : Text)
    → line ≡ c ∷ t
    → parse_line_text getenv (new_parser raw) line
      ≡ explode (running line [] [] 0 []) (split_char b' ' line)
unfolding parse_line_text new_parser
parse_line_text-explode getenv raw line c t e = rw e

-- A line built from a word as the program and arguments of words is parsed back into the program
-- and those arguments, without a panic. An argument is empty, a word, or words with one space
-- between two; a word has a character, no white space and no quote.
pub parse_line-line_build :
    (getenv : Text → Text) (bin : Text) (args : List (List Text))
    → IsWord bin
    → AllArgs args
    → parse_line getenv (line_build bin (map arg_text args)) ≡ done (bin ∷ map arg_text args)
unfolding parse_line
parse_line-line_build getenv [] args (h, ne) k = absurd (ne refl)
parse_line-line_build getenv (c ∷ bin) args (h, ne) k =
    let nodes = all_nodes args in
    let solid : AllSolid ((c ∷ bin) ∷ nodes) =
      (Every-word-solid (c ∷ bin) h, cons-ne-nil c bin, all_nodes-AllSolid args k) in
    let line = join_char b' ' ((c ∷ bin) ∷ nodes) in
    let built : line_build (c ∷ bin) (map arg_text args) ≡ line =
      line_build-all_nodes c bin args h k in
    let trimmed = trim_space-nodes c bin nodes solid in
    let split =
      split_char-join_char b' ' (c ∷ bin) nodes (AllSolid-NoneHas ((c ∷ bin) ∷ nodes) solid) in
    let (p, run, result) = explode-all_nodes line c bin args h k in
    let (t, e) = join_char-ne-nil c bin nodes in
    let text = parse_line_text-explode getenv line line c t e in
    rw (built, trimmed, text, split, run, result)
