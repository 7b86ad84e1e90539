-- ===== src/Finder/Tests.antt =====
-- The finder run on a small tree.
use goutil.Prelude.{
  ◌+◌, ◌≡◌, refl, Bool, true, false, List, [], ◌∷◌, ◌++◌, Option, none, some, length, map,
  if◌then◌else◌,
}
use goutil.Prelude.Int.{pos}
use goutil.Prelude.Outcome.{Outcome, done, panics, ◌>>=◌}
use goutil.Text.{Text, codes, is_space, contains_char, trim_space, index_text, has_prefix}
use goutil.Strutil.Cut.{trim_cut}
use goutil.Finder.{
  Entry, file, dir, Listing, unreadable, entries, nil, cons, Matcher, Finder, new_finder,
  new_with_config, new_config, invalid_rule,
}
use goutil.Finder.Setup.{ext_rule, load_loop, with_rules}
use goutil.Finder.Setters.{with_max_depth}
use goutil.Finder.Walk.{find, find_dir, find_file, sends_dir, apply_ex_matchers}
use goutil.Finder.Refinement.{IsSound}
use goutil.Finder.Finding.{found, find-walk_all}
use goutil.Finder.Again.{find-find_again}
use goutil.Finder.Depth.{prune, at_start, find_dir-prune}
use goutil.Finder.Rules.{rule_text, setting, with_rules-rule_text}
use goutil.Finder.RuleList.{well_formed, apply_rules, load_loop-first_invalid}

abbrev slash : Text → Text → Text
slash p name = p ++ b'/' ∷ name

abbrev no_abs : Text → Option Text
no_abs p = none

abbrev no_match : Text → Text → Option Bool
no_match pattern s = some false

abbrev no_matcher : Text → Option Matcher
no_matcher expr = none

abbrev leaf : Text → Entry
leaf name = file name none

abbrev tree : Listing
tree = entries (
    cons (leaf (codes "a.go")) (
      cons (dir (codes ".git") none (entries (cons (leaf (codes "x.go")) nil))) (
        cons
          (dir (codes "sub") none (
            entries (
              cons (leaf (codes "b.go"))
                (cons (dir (codes "deep") none (entries (cons (leaf (codes "c.go")) nil))) nil))))
          nil)))

abbrev read_tree : Text → Listing
read_tree p = tree

abbrev go_finder : Finder
go_finder = new_with_config (record (new_config (codes "src" ∷ [])) {
  include_exts = codes ".go" ∷ [];
  cache_result = false;
})

abbrev cached_finder : Finder
cached_finder = record go_finder { c = record go_finder.c { cache_result = true } }

tree-IsSound : IsSound tree
unfolding IsSound
tree-IsSound = (tt, ((tt, tt), ((tt, ((tt, tt), tt)), tt)))

-- A directory that cannot be read in front of one with a deep file.
abbrev broken : Listing
broken = entries (
    cons (dir (codes "locked") none unreadable) (
      cons
        (dir (codes "sub") none
          (entries (cons (dir (codes "deep") none (entries (cons (leaf (codes "c.go")) nil))) nil)))
        nil))

found_names : Outcome Finder → List Text
found_names (done f) = map (λ el. el.path) f.ch
found_names panics = []

find_dir-broken :
    found_names
      (find_dir slash (codes "src") broken (at_start (with_max_depth (pos 2) (new_finder []))))
    ≡ codes "src/sub/deep/c.go" ∷ []
unfolding found_names find_dir with_max_depth new_finder find_file sends_dir apply_ex_matchers
find_dir-broken = refl

find_dir-tree :
    found_names
      (find_dir slash (codes "src") tree (at_start (with_max_depth (pos 2) (new_finder []))))
    ≡ codes "src/a.go" ∷ codes "src/sub/b.go" ∷ []
unfolding found_names find_dir with_max_depth new_finder find_file sends_dir apply_ex_matchers
find_dir-tree = refl

find-walk_all_example :
    (g : Finder) × (find slash no_abs read_tree no_match go_finder ≡ done g)
    × (g.ch ≡ found slash no_abs read_tree no_match go_finder)
    × (g.num ≡ length (found slash no_abs read_tree no_match go_finder))
    × (g.err ≡ none)
    × (g.caches ≡ (if false then found slash no_abs read_tree no_match go_finder else []))
unfolding new_with_config new_config
find-walk_all_example =
    find-walk_all slash no_abs read_tree no_match go_finder refl refl (tree-IsSound, tt)

find-find_again_example :
    (g : Finder) × (g' : Finder) × (find slash no_abs read_tree no_match go_finder ≡ done g)
    × (find slash no_abs read_tree no_match g ≡ done g')
    × (g'.ch ≡ g.ch)
    × (g'.num ≡ g.num)
unfolding new_with_config new_config
find-find_again_example =
    find-find_again slash no_abs read_tree no_match go_finder refl refl refl (tree-IsSound, tt)

find_dir-prune_example :
    (g : Finder) × (h : Finder) × (find_dir slash
        (codes "src")
        tree
        (at_start (with_max_depth (pos (1 + 1)) go_finder))
      ≡ done g)
    × (find_dir slash (codes "src") (prune 1 tree) (at_start (with_max_depth (pos 0) go_finder))
        ≡ done h)
    × (g.ch ≡ h.ch)
    × (g.num ≡ h.num)
find_dir-prune_example = find_dir-prune slash 1 (codes "src") tree go_finder tree-IsSound

with_rules-rule_text_example :
    with_rules no_matcher no_matcher true
      (rule_text ext_rule (codes ".go" ∷ codes ".md" ∷ []) ∷ [])
      go_finder
    ≡ done
        (record (setting true ext_rule (codes ".go" ∷ codes ".md" ∷ []) go_finder) { err = none })
unfolding is_space
with_rules-rule_text_example =
    with_rules-rule_text no_matcher no_matcher true ext_rule b'.' (codes "go") (codes ".md" ∷ [])
      go_finder tt ((refl, (refl, (refl, tt))), ((refl, (refl, (refl, tt))), tt))

go_rule : well_formed (codes "ext:.go") ≡ true
unfolding is_space contains_char trim_cut trim_space index_text has_prefix
go_rule = refl

bad_rule : well_formed (codes "bad") ≡ false
unfolding contains_char
bad_rule = refl

load_loop-first_invalid_example :
    (load_loop no_matcher no_matcher true 0 (codes "ext:.go" ∷ []) go_finder.c ≡ (
      apply_rules no_matcher no_matcher true (codes "ext:.go" ∷ []) go_finder.c >>= λ c'.
      done (c', none)))
    × (load_loop no_matcher no_matcher true 0
          ((codes "ext:.go" ∷ []) ++ codes "bad" ∷ codes "name:x" ∷ [])
          go_finder.c
        ≡ (apply_rules no_matcher no_matcher true (codes "ext:.go" ∷ []) go_finder.c >>= λ c'.
            done (c', some (invalid_rule (0 + length (codes "ext:.go" ∷ [])) (codes "bad")))))
load_loop-first_invalid_example =
    load_loop-first_invalid no_matcher no_matcher true 0 (codes "ext:.go" ∷ []) (codes "bad")
      (codes "name:x" ∷ []) go_finder.c (go_rule, tt) bad_rule
