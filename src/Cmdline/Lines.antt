-- ===== src/Cmdline/Lines.antt =====
-- A line of nodes without spaces is trimmed to itself and splits into those nodes.
use mathlib.Core.List.{concat-ne-nil, cons-ne-nil}
use mathlib.Core.Path.{subst}
use goutil.Prelude.{
  ℕ, ◌≡◌, ◌≢◌, refl, sym, ap, ◌∙◌, arith, Bool, true, false, not, ◌⊎◌, inl, inr, Bool-cases, ==_iff,
  List, [], ◌∷◌, ◌++◌, append_assoc, ◌==◌,
}
use goutil.Text.{Text, is_space, join_char, trim_space}
use goutil.Text.Laws.{Every, Every-append, last_split, trim_space_keep}
use goutil.Text.Splits.{NoneHas, differs}
use goutil.Cmdline.{double_quote, single_quote}
use goutil.Cmdline.Nodes.{word_char, AllWords, tail_nodes, nodes_of}
use goutil.Cmdline.Written.{AllArgs, all_nodes, join_char-ne-nil}

-- A node has characters, and none is a space.
abbrev pub solid_char : ℕ → Bool
solid_char c = not (is_space c)

abbrev pub AllSolid : List Text → Type 0
AllSolid [] = Unit
AllSolid (n ∷ ns) = Every solid_char n × (n ≢ []) × AllSolid ns

pub AllSolid-append : (xs ys : List Text) → AllSolid xs → AllSolid ys → AllSolid (xs ++ ys)
AllSolid-append [] ys h k = k
AllSolid-append (x ∷ xs) ys (hx, ne, h) k = (hx, ne, AllSolid-append xs ys h k)

pub Every-word-solid : (w : Text) → Every word_char w → Every solid_char w
Every-word-solid [] h = tt
Every-word-solid (c ∷ w) (hc, h) = (ground arith, Every-word-solid w h)

pub quote_solid : solid_char double_quote ≡ true
unfolding is_space
quote_solid = refl

pub quote_is_solid : (q : ℕ) → (q ≡ double_quote) ⊎ (q ≡ single_quote) → solid_char q ≡ true
unfolding is_space
quote_is_solid q h = ground arith

pub tail_nodes-AllSolid :
    (v : Text) (ws : List Text) → AllWords (v ∷ ws) → AllSolid (tail_nodes v ws)
tail_nodes-AllSolid v [] ((h, ne), k) =
    (Every-append solid_char v _ (Every-word-solid v h) (quote_solid, tt), concat-ne-nil _ v, tt)
tail_nodes-AllSolid v (u ∷ ws) ((h, ne), k) = (Every-word-solid v h, ne, tail_nodes-AllSolid u ws k)

pub nodes_of-AllSolid : (ws : List Text) → AllWords ws → AllSolid (nodes_of ws)
nodes_of-AllSolid [] h = ((quote_solid, (quote_solid, tt)), cons-ne-nil _ _, tt)
nodes_of-AllSolid (w ∷ []) ((h, ne), k) = (Every-word-solid w h, ne, tt)
nodes_of-AllSolid (w ∷ v ∷ ws) ((h, ne), k) =
    ((quote_solid, Every-word-solid w h), cons-ne-nil _ _, tail_nodes-AllSolid v ws k)

pub all_nodes-AllSolid : (args : List (List Text)) → AllArgs args → AllSolid (all_nodes args)
all_nodes-AllSolid [] h = tt
all_nodes-AllSolid (ws ∷ args) (h, k) =
    AllSolid-append (nodes_of ws) (all_nodes args) (nodes_of-AllSolid ws h)
      (all_nodes-AllSolid args k)

pub solid_char-differs : (c : ℕ) → solid_char c ≡ true → differs b' ' c ≡ true
unfolding is_space
solid_char-differs c h = elim (Bool-cases (c == b' ')) [
  | inl e ↦ cc (rw ((==_iff c b' ').0 e) at h)
  | inr n ↦ rw n
]

pub Every-solid-differs : (n : Text) → Every solid_char n → Every (differs b' ') n
Every-solid-differs [] h = tt
Every-solid-differs (c ∷ n) (hc, h) = (solid_char-differs c hc, Every-solid-differs n h)

pub AllSolid-NoneHas : (ns : List Text) → AllSolid ns → NoneHas b' ' ns
AllSolid-NoneHas [] h = tt
AllSolid-NoneHas (n ∷ ns) (h, ne, k) = (Every-solid-differs n h, AllSolid-NoneHas ns k)

pub Every-last : (p : ℕ → Bool) (init : Text) (l : ℕ) → Every p (init ++ l ∷ []) → p l ≡ true
Every-last p [] l (h, _) = h
Every-last p (c ∷ init) l (_, h) = Every-last p init l h

-- The last character of a line of such nodes is not a space.
pub join_char-last :
    (n : Text) (ns : List Text)
    → AllSolid (n ∷ ns)
    → (init : Text) × (l : ℕ) × (join_char b' ' (n ∷ ns) ≡ init ++ l ∷ []) × (is_space l ≡ false)
unfolding join_char
join_char-last [] ns (h, ne, k) = absurd (ne refl)
join_char-last (c ∷ n) [] (h, ne, k) =
    let (init, l, e) = last_split c n in
    let solid = Every-last solid_char init l (subst (Every solid_char) e h) in
    (init, l, e, ground arith)
join_char-last (c ∷ n') (m ∷ ns) (h, ne, k) =
    let n = c ∷ n' in
    let (init, l, e, solid) = join_char-last m ns k in
    (
      n ++ (b' ' ∷ init),
      l,
      ap (λ t. n ++ (b' ' ∷ t)) e ∙ sym (append_assoc n (b' ' ∷ init) (l ∷ [])),
      solid,
    )

pub trim_space-nodes :
    (c : ℕ) (n : Text) (ns : List Text)
    → AllSolid ((c ∷ n) ∷ ns)
    → trim_space (join_char b' ' ((c ∷ n) ∷ ns)) ≡ join_char b' ' ((c ∷ n) ∷ ns)
trim_space-nodes c n ns h =
    let (t, e) = join_char-ne-nil c n ns in
    let (init, l, e', hl) = join_char-last (c ∷ n) ns h in
    let first : is_space c ≡ false = ground (arith, h.0) in
    rw e (trim_space_keep c t init l first (sym e ∙ e') hl)
