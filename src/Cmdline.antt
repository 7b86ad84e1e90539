-- ===== src/Cmdline.antt =====
-- cliutil/cmdline: `LineParser` of parser.go and `LineBuilder` of builder.go. The byte 0 of the source
-- is the quote character of "no quote". A method returns the new parser; a slice out of range panics.
pub mod Builder
pub mod Nodes
pub mod Written
pub mod Lines
pub mod RoundTrip
pub mod Panics
mod Tests
use goutil.Prelude.{
  ℕ, zero, suc, ◌+◌, ◌-◌, ◌≡◌, refl, Bool, true, false, not, ◌&&◌, ◌||◌, List, [], ◌∷◌, ◌++◌,
  Option, none, some, ltb, leb, ◌==◌, if◌then◌else◌, length, take, drop,
}
use goutil.Prelude.Outcome.{Outcome, done, panics, ◌>>=◌}
use goutil.Arrutil.Search.{index}
use goutil.Text.{Text, trim_space, contains_char, split_char}
use goutil.Varexpr

abbrev pub double_quote : ℕ
double_quote = b'"'

abbrev pub single_quote : ℕ
single_quote = b'\''

pub record LineParser : Type 0 where
  pub parsed : Bool
  pub line : Text
  pub parse_env : Bool
  pub nodes : List Text
  pub args : List Text
  pub quote_char : ℕ
  pub quote_index : ℕ
  pub temp_node : Text

pub new_parser : Text → LineParser
new_parser line = record {
  parsed = false;
  line = line;
  parse_env = false;
  nodes = [];
  args = [];
  quote_char = 0;
  quote_index = 0;
  temp_node = [];
}

pub with_parse_env : LineParser → LineParser
with_parse_env p = record p { parse_env = true }

-- `node[lo:hi]`
pub slice : Text → ℕ → ℕ → Outcome Text
slice node lo hi =
    if leb lo hi && leb hi (length node) then done (take (hi - lo) (drop lo node)) else panics

pub append_temp_node : LineParser → LineParser
append_temp_node p = record p {
  args = p.args ++ p.temp_node ∷ [];
  quote_char = 0;
  quote_index = 0;
  temp_node = [];
}

-- `if p.quoteChar != 0 { ... return }`
pub in_quotes : LineParser → Text → ℕ → ℕ → Outcome LineParser
in_quotes p node max_idx end =
    let spaced = p.temp_node ++ b' ' ∷ [] in
    if end == p.quote_char
    then (do
      text ← (if ltb 0 p.quote_index then done node else slice node 0 max_idx)
      done (append_temp_node (record p { temp_node = spaced ++ text })))
    else done (record p { temp_node = spaced ++ node })

-- `if start == comdef.DoubleQuote || start == comdef.SingleQuote`
pub quote_start : LineParser → Text → ℕ → ℕ → ℕ → Outcome LineParser
quote_start p node max_idx start end =
    if end == start
    then (do text ← slice node 1 max_idx; done (record p { args = p.args ++ text ∷ [] }))
    else (do
      text ← slice node 1 (max_idx + 1)
      done (record p { quote_char = start; temp_node = p.temp_node ++ text }))

-- The last branch: a quote inside the node opens a quoted text too.
pub plain_node : LineParser → Text → LineParser
plain_node p node =
    if contains_char node double_quote
    then record p { quote_index = 1; quote_char = double_quote; temp_node = p.temp_node ++ node }
    else if contains_char node single_quote
    then record p { quote_index = 1; quote_char = single_quote; temp_node = p.temp_node ++ node }
    else record p { args = p.args ++ node ∷ [] }

unfoldable pub parse_node : LineParser → Text → Outcome LineParser
unfolding in_quotes quote_start plain_node slice append_temp_node index
parse_node p node =
    let max_idx = length node - 1 in
    (index node 0 >>= λ start.
    (index node max_idx >>= λ end.
    if not (p.quote_char == 0)
    then in_quotes p node max_idx end
    else if start == double_quote || start == single_quote
    then quote_start p node max_idx start end
    else if end == double_quote || end == single_quote
    then done (record p { args = p.args ++ node ∷ [] })
    else done (plain_node p node)))

-- `for i := 0; i < len(p.nodes); i++`: empty nodes are skipped.
unfoldable pub parse_nodes : LineParser → List Text → Outcome LineParser
unfolding parse_node
parse_nodes p [] = done p
parse_nodes p ([] ∷ nodes) = parse_nodes p nodes
parse_nodes p ((c ∷ node) ∷ nodes) = do p' ← parse_node p (c ∷ node); parse_nodes p' nodes

-- Behind the loop.
pub finish : LineParser → LineParser
finish p =
    let p' = record p { nodes = [] } in
    if ltb 0 (length p.temp_node) then append_temp_node p' else p'

-- From `p.nodes = strings.Split(p.Line, " ")` on; the list is never empty.
pub explode : LineParser → List Text → Outcome LineParser
explode p (node ∷ []) = done (record p { nodes = node ∷ []; args = node ∷ [] })
explode p nodes = do p' ← parse_nodes (record p { nodes = nodes }) nodes; done (finish p')

pub parse_line_text : (Text → Text) → LineParser → Text → Outcome LineParser
parse_line_text getenv p [] = done (record p { parsed = true; line = [] })
parse_line_text getenv p (c ∷ s) =
    let line = if p.parse_env then Varexpr.safe_parse getenv (c ∷ s) else c ∷ s in
    explode (record p { parsed = true; line = line }) (split_char b' ' line)

-- `Parse`: the parser afterwards, whose `args` are returned. `getenv` is `os.Getenv`.
unfoldable pub parse : (Text → Text) → LineParser → Outcome LineParser
unfolding parse_nodes finish explode parse_line_text
parse getenv p = if p.parsed then done p else parse_line_text getenv p (trim_space p.line)

unfoldable pub parse_line : (Text → Text) → Text → Outcome (List Text)
unfolding parse new_parser
parse_line getenv line = do p ← parse getenv (new_parser line); done p.args

pub also_env_parse : (Text → Text) → LineParser → Outcome LineParser
also_env_parse getenv p = parse getenv (record p { parse_env = true })

abbrev pub split_bin : List Text → Text × List Text
split_bin [] = ([], [])
split_bin (bin ∷ args) = (bin, args)

pub bin_and_args : (Text → Text) → LineParser → Outcome (Text × List Text)
bin_and_args getenv p = do p' ← parse getenv p; done (split_bin p'.args)
