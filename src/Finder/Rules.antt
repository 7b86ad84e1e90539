-- ===== src/Finder/Rules.antt =====
-- `LoadRules` against the methods that set the same settings, and where a list of rules stops.
use goutil.Prelude.{
  ℕ, ◌+◌, ◌≡◌, refl, ap, ◌∙◌, Bool, true, false, not, ◌||◌, List, [], ◌∷◌, ◌++◌, Option, none, some,
  if◌then◌else◌, if_false,
}
use goutil.Prelude.Outcome.{Outcome, done, ◌>>=◌}
use goutil.Text.{Text, codes, trim_space, is_space, text_eq, join_char}
use goutil.Text.Laws.{Every, Every-of_every, solid_char}
use goutil.Text.Splits.{differs}
use goutil.Strutil.Cut.{is_empty, split, trim_cut}
use goutil.Strutil.CutLaws.{
  AllParts, cut-char, contains_char-append, trim_space-join_char, split-join_char, join_char-cons,
}
use goutil.Finder.{Matcher, Config, Finder, FindError, invalid_rule}
use goutil.Finder.Setup.{
  RuleKind, ext_rule, name_rule, file_rule, path_rule, dir_rule, size_rule, time_rule, unknown_rule,
  rule_kind, load_rule, load_loop, with_rules,
}
use goutil.Finder.Setters.{
  include_ext, include_name, include_file, include_path, include_dir, exclude_ext, without_names,
  exclude_file, exclude_path, exclude_dir,
}

-- The rules that name files or directories.
abbrev pub IsNameRule : RuleKind → Type 0
IsNameRule size_rule = ⊥
IsNameRule time_rule = ⊥
IsNameRule unknown_rule = ⊥
IsNameRule _ = Unit

abbrev pub rule_name : RuleKind → Text
rule_name ext_rule = codes "ext"
rule_name name_rule = codes "name"
rule_name file_rule = codes "file"
rule_name path_rule = codes "path"
rule_name dir_rule = codes "dir"
rule_name size_rule = codes "size"
rule_name time_rule = codes "time"
rule_name unknown_rule = codes "unknown"

-- `NAME:pattern1,pattern2`
abbrev pub rule_text : RuleKind → List Text → Text
rule_text kind parts = rule_name kind ++ b':' ∷ join_char b',' parts

-- The method that takes the patterns of a rule.
abbrev pub setting : Bool → RuleKind → List Text → Finder → Finder
setting true ext_rule parts f = include_ext parts f
setting true name_rule parts f = include_name parts f
setting true file_rule parts f = include_file parts f
setting true path_rule parts f = include_path parts f
setting true dir_rule parts f = include_dir parts f
setting false ext_rule parts f = exclude_ext parts f
setting false name_rule parts f = without_names parts f
setting false file_rule parts f = exclude_file parts f
setting false path_rule parts f = exclude_path parts f
setting false dir_rule parts f = exclude_dir parts f
setting _ _ parts f = f

comma_solid : solid_char b',' ≡ true
unfolding is_space
comma_solid = refl

name_differs : (kind : RuleKind) → Every (differs b':') (rule_name kind)
name_differs ext_rule = Every-of_every (differs b':') (rule_name ext_rule) refl
name_differs name_rule = Every-of_every (differs b':') (rule_name name_rule) refl
name_differs file_rule = Every-of_every (differs b':') (rule_name file_rule) refl
name_differs path_rule = Every-of_every (differs b':') (rule_name path_rule) refl
name_differs dir_rule = Every-of_every (differs b':') (rule_name dir_rule) refl
name_differs size_rule = Every-of_every (differs b':') (rule_name size_rule) refl
name_differs time_rule = Every-of_every (differs b':') (rule_name time_rule) refl
name_differs unknown_rule = Every-of_every (differs b':') (rule_name unknown_rule) refl

name_trimmed : (kind : RuleKind) → IsNameRule kind → trim_space (rule_name kind) ≡ rule_name kind
unfolding trim_space is_space
name_trimmed ext_rule h = refl
name_trimmed name_rule h = refl
name_trimmed file_rule h = refl
name_trimmed path_rule h = refl
name_trimmed dir_rule h = refl
name_trimmed size_rule h = absurd h
name_trimmed time_rule h = absurd h
name_trimmed unknown_rule h = absurd h

rule_kind-rule_name : (kind : RuleKind) → IsNameRule kind → rule_kind (rule_name kind) ≡ kind
unfolding rule_kind text_eq
rule_kind-rule_name ext_rule h = refl
rule_kind-rule_name name_rule h = refl
rule_kind-rule_name file_rule h = refl
rule_kind-rule_name path_rule h = refl
rule_kind-rule_name dir_rule h = refl
rule_kind-rule_name size_rule h = absurd h
rule_kind-rule_name time_rule h = absurd h
rule_kind-rule_name unknown_rule h = absurd h

name_filled : (kind : RuleKind) → is_empty (rule_name kind) ≡ false
name_filled ext_rule = refl
name_filled name_rule = refl
name_filled file_rule = refl
name_filled path_rule = refl
name_filled dir_rule = refl
name_filled size_rule = refl
name_filled time_rule = refl
name_filled unknown_rule = refl

trim_cut-rule_text :
    (kind : RuleKind) (c : ℕ) (w : Text) (ws : List Text)
    → IsNameRule kind
    → AllParts b',' ((c ∷ w) ∷ ws)
    → trim_cut (rule_text kind ((c ∷ w) ∷ ws)) (codes ":")
      ≡ (rule_name kind, join_char b',' ((c ∷ w) ∷ ws))
unfolding trim_cut
trim_cut-rule_text kind c w ws named h =
    let joined = join_char b',' ((c ∷ w) ∷ ws) in
    ap (λ (r : Text × Text × Bool). (trim_space r.0, trim_space r.1))
      (cut-char b':' (rule_name kind) joined (name_differs kind))
    ∙ ap (λ t. (t, trim_space joined)) (name_trimmed kind named)
    ∙ ap (λ t. (rule_name kind, t)) (trim_space-join_char b',' c w ws comma_solid h)

module _ (human_size human_mod_time : Text → Option Matcher) where
  abbrev run_rule : Bool → RuleKind → List Text → Config → Outcome Config
  run_rule = load_rule human_size human_mod_time

  abbrev run_rules : Bool → ℕ → List Text → Config → Outcome (Config × Option FindError)
  run_rules = load_loop human_size human_mod_time

  load_loop-rule_text :
      (add : Bool) (i : ℕ) (kind : RuleKind) (c : ℕ) (w : Text) (ws rules : List Text)
      (conf : Config)
      → IsNameRule kind
      → AllParts b',' ((c ∷ w) ∷ ws)
      → run_rules add i (rule_text kind ((c ∷ w) ∷ ws) ∷ rules) conf
        ≡ (run_rule add kind ((c ∷ w) ∷ ws) conf >>= λ conf'. run_rules add (i + 1) rules conf')
  unfolding load_loop
  load_loop-rule_text add i kind c w ws rules conf named h =
      let parts = (c ∷ w) ∷ ws in
      let joined = join_char b',' parts in
      let (rest, e) = join_char-cons b',' c w ws in
      if_false _ _ (ap not (contains_char-append b':' (rule_name kind) joined))
      ∙ ap
          (λ (r : Text × Text).
            if is_empty r.0 || is_empty r.1
            then done (conf, some (invalid_rule i (rule_text kind parts)))
            else run_rule add (rule_kind r.0) (split r.1 (codes ",")) conf >>= λ conf'.
                run_rules add (i + 1) rules conf')
          (trim_cut-rule_text kind c w ws named h)
      ∙ if_false _ _ (ap (λ b. b || is_empty joined) (name_filled kind) ∙ ap is_empty e)
      ∙ ap
          (λ k. run_rule add k (split joined (codes ",")) conf >>= λ conf'.
            run_rules add (i + 1) rules conf')
          (rule_kind-rule_name kind named)
      ∙ ap (λ ps. run_rule add kind ps conf >>= λ conf'. run_rules add (i + 1) rules conf')
          (split-join_char b',' c w ws comma_solid h)

  loaded :
      (add : Bool) (kind : RuleKind) (parts : List Text) (f : Finder)
      → IsNameRule kind
      → ((run_rule add kind parts f.c >>= λ conf. run_rules add 1 [] conf) >>= λ r.
          done (record f { c = r.0; err = r.1 }))
        ≡ done (record (setting add kind parts f) { err = none })
  unfolding load_loop load_rule include_ext include_name include_file include_path include_dir
      exclude_ext without_names exclude_file exclude_path exclude_dir
  loaded true ext_rule parts f h = refl
  loaded false ext_rule parts f h = refl
  loaded true name_rule parts f h = refl
  loaded false name_rule parts f h = refl
  loaded true file_rule parts f h = refl
  loaded false file_rule parts f h = refl
  loaded true path_rule parts f h = refl
  loaded false path_rule parts f h = refl
  loaded true dir_rule parts f h = refl
  loaded false dir_rule parts f h = refl
  loaded add size_rule parts f h = absurd h
  loaded add time_rule parts f h = absurd h
  loaded add unknown_rule parts f h = absurd h

  -- A rule `ext`, `name`, `file`, `path` or `dir` whose patterns are not empty and hold no space and
  -- no comma sets what the method of the finder for these patterns sets, to include or to exclude,
  -- and leaves no error.
  pub with_rules-rule_text :
      (add : Bool) (kind : RuleKind) (c : ℕ) (w : Text) (ws : List Text) (f : Finder)
      → IsNameRule kind
      → AllParts b',' ((c ∷ w) ∷ ws)
      → with_rules human_size human_mod_time add (rule_text kind ((c ∷ w) ∷ ws) ∷ []) f
        ≡ done (record (setting add kind ((c ∷ w) ∷ ws) f) { err = none })
  unfolding with_rules load_loop
  with_rules-rule_text add kind c w ws f named h =
      ap (λ m. m >>= λ r. done (record f { c = r.0; err = r.1 }))
        (load_loop-rule_text add 0 kind c w ws [] f.c named h)
      ∙ loaded add kind ((c ∷ w) ∷ ws) f named
