-- ===== src/Finder/Setup.antt =====
-- fsutil/finder/config.go: the flags, the matchers built from the settings, and the rules.
-- `strutil.ParseSizeRange` and `timex.ParseRange`, which build the size and time matchers of a rule,
-- are parameters: `none` is an expression that makes them panic.
use goutil.Prelude.{
  map, leb, ◌==◌, ◌&&◌, ℕ, ◌+◌, Bool, true, false, not, ◌||◌, List, [], ◌∷◌, ◌++◌, Option, none,
  some, if◌then◌else◌,
}
use goutil.Prelude.Outcome.{Outcome, done, panics, ◌>>=◌}
use goutil.Text.{Text, codes, text_eq, contains_char}
use goutil.Strutil.Cut.{is_empty, split, trim_cut}
use goutil.Finder.{
  Matcher, FindFlag, flag_file, flag_dir, flag_both, Config, Finder, FindError, invalid_rule,
}
use goutil.Finder.Matchers.{match_names, match_paths, match_exts}

-- `unicode.ToLower`, as far as it gives ASCII characters: the two others that it maps to `i` and `k`
-- are U+0130 and U+212A.
abbrev pub to_lower : ℕ → ℕ
to_lower c =
    if leb b'A' c && leb c b'Z'
    then c + 32
    else if c == 0x130
    then b'i'
    else if c == 0x212a
    then b'k'
    else c

unfoldable pub flag_of_lower : Text → FindFlag
flag_of_lower s =
    if text_eq s (codes "dirs") || text_eq s (codes "dir") || text_eq s (codes "d")
    then flag_dir
    else if text_eq s (codes "both") || text_eq s (codes "b")
    then flag_both
    else flag_file

unfoldable pub to_flag : Text → FindFlag
unfolding flag_of_lower
to_flag s = flag_of_lower (map to_lower s)

-- `if len(names) > 0 { matchers = append(matchers, matcher(names)) }`
abbrev pub append_for : List Text → (List Text → Matcher) → List Matcher → List Matcher
append_for [] matcher fls = fls
append_for (n ∷ ns) matcher fls = fls ++ matcher (n ∷ ns) ∷ []

module _ (path_match : Text → Text → Option Bool) where
  -- `Init` behind its guard.
  unfoldable pub build_matchers : Config → Config
  build_matchers c = record c {
    matchers =
        append_for c.include_paths match_paths
          (append_for c.include_names (match_names path_match) c.matchers);
    ex_matchers =
        append_for c.exclude_names (match_names path_match)
          (append_for c.exclude_paths match_paths c.ex_matchers);
    dir_matchers = append_for c.include_dirs (match_names path_match) c.dir_matchers;
    dir_ex_matchers = append_for c.exclude_dirs (match_names path_match) c.dir_ex_matchers;
    file_matchers =
        append_for c.include_files (match_names path_match)
          (append_for c.include_exts match_exts c.file_matchers);
    file_ex_matchers =
        append_for c.exclude_files (match_names path_match)
          (append_for c.exclude_exts match_exts c.file_ex_matchers);
  }

  unfoldable pub init_config : Config → Config
  unfolding build_matchers
  init_config c = if c.init then c else build_matchers c

-- The cases of the switch of `LoadRules`.
pub data RuleKind : Type 0 where
  ext_rule name_rule file_rule path_rule dir_rule size_rule time_rule unknown_rule : RuleKind

unfoldable pub rule_kind : Text → RuleKind
rule_kind name =
    if text_eq name (codes "ext") || text_eq name (codes "exts")
    then ext_rule
    else if text_eq name (codes "name") || text_eq name (codes "names")
    then name_rule
    else if text_eq name (codes "file") || text_eq name (codes "files")
    then file_rule
    else if text_eq name (codes "path") || text_eq name (codes "paths")
    then path_rule
    else if text_eq name (codes "dir") || text_eq name (codes "dirs")
    then dir_rule
    else if text_eq name (codes "size")
    then size_rule
    else if text_eq name (codes "time") || text_eq name (codes "mtime")
    then time_rule
    else unknown_rule

module _ (human_size human_mod_time : Text → Option Matcher) where
  unfoldable pub build_all : (Text → Option Matcher) → List Text → Outcome (List Matcher)
  build_all build [] = done []
  build_all build (expr ∷ exprs) = elim (build expr) [
    | none ↦ panics
    | some m ↦ build_all build exprs >>= λ ms. done (m ∷ ms)
  ]

  unfoldable pub load_rule : Bool → RuleKind → List Text → Config → Outcome Config
  unfolding build_all
  load_rule true ext_rule patterns c = done (record c { include_exts = c.include_exts ++ patterns })
  load_rule false ext_rule patterns c =
      done (record c { exclude_exts = c.exclude_exts ++ patterns })
  load_rule true name_rule patterns c =
      done (record c { include_names = c.include_names ++ patterns })
  load_rule false name_rule patterns c =
      done (record c { exclude_names = c.exclude_names ++ patterns })
  load_rule true file_rule patterns c =
      done (record c { include_files = c.include_files ++ patterns })
  load_rule false file_rule patterns c =
      done (record c { exclude_files = c.exclude_files ++ patterns })
  load_rule true path_rule patterns c =
      done (record c { include_paths = c.include_paths ++ patterns })
  load_rule false path_rule patterns c =
      done (record c { exclude_paths = c.exclude_paths ++ patterns })
  load_rule true dir_rule patterns c = done (record c { include_dirs = c.include_dirs ++ patterns })
  load_rule false dir_rule patterns c =
      done (record c { exclude_dirs = c.exclude_dirs ++ patterns })
  load_rule true size_rule patterns c = build_all human_size patterns >>= λ ms.
      done (record c { file_matchers = c.file_matchers ++ ms })
  load_rule false size_rule patterns c = build_all human_size patterns >>= λ ms.
      done (record c { file_ex_matchers = c.file_ex_matchers ++ ms })
  load_rule true time_rule patterns c = build_all human_mod_time patterns >>= λ ms.
      done (record c { file_matchers = c.file_matchers ++ ms })
  load_rule false time_rule patterns c = build_all human_mod_time patterns >>= λ ms.
      done (record c { file_ex_matchers = c.file_ex_matchers ++ ms })
  load_rule add_or_not unknown_rule patterns c = done c

  -- The loop of `LoadRules`; an invalid rule ends it with an error.
  unfoldable pub load_loop : Bool → ℕ → List Text → Config → Outcome (Config × Option FindError)
  unfolding load_rule rule_kind
  load_loop add_or_not i [] c = done (c, none)
  load_loop add_or_not i (rule ∷ rules) c =
      let (name, pattern) = trim_cut rule (codes ":") in
      if not (contains_char rule b':')
      then done (c, some (invalid_rule i rule))
      else if is_empty name || is_empty pattern
      then done (c, some (invalid_rule i rule))
      else load_rule add_or_not (rule_kind name) (split pattern (codes ",")) c >>= λ c'.
          load_loop add_or_not (i + 1) rules c'

  unfoldable pub load_rules : Bool → List Text → Config → Outcome (Config × Option FindError)
  unfolding load_loop
  load_rules add_or_not rules c = load_loop add_or_not 0 rules c

  unfoldable pub with_rules : Bool → List Text → Finder → Outcome Finder
  unfolding load_rules
  with_rules add_or_not rules f =
      load_rules add_or_not rules f.c >>= λ r. done (record f { c = r.0; err = r.1 })

  unfoldable pub include_rules : List Text → Finder → Outcome Finder
  unfolding with_rules
  include_rules rules f = with_rules true rules f

  unfoldable pub exclude_rules : List Text → Finder → Outcome Finder
  unfolding with_rules
  exclude_rules rules f = with_rules false rules f
