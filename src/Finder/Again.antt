-- ===== src/Finder/Again.antt =====
-- A second search with the same finder: `Init` adds the matchers of the settings again, since nothing
-- sets its flag.
use goutil.Prelude.{
  ℕ, suc, ◌≡◌, refl, ap, ◌∙◌, sym, Bool, true, false, List, [], ◌∷◌, ◌++◌, Option, length,
  Bool-cases, inl, inr, if_true, if_false,
}
use goutil.Prelude.Int.{ℤ}
use goutil.Prelude.Outcome.{done}
use goutil.Text.{Text}
use goutil.Finder.{
  Entry, file, dir, Listing, unreadable, entries, Entries, nil, cons, Elem, Config, Finder,
}
use mathlib.Core.Path.{subst}
use goutil.Finder.Setup.{init_config, build_matchers}
use goutil.Finder.Matchers.{match_names, match_paths, match_exts}
use goutil.Finder.Walk.{sends_dir, find, prepare}
use goutil.Finder.Refinement.{
  walk, walk_entries, walk_entry, only_if, passes_dir, passes_file, enters, stand,
}
use goutil.Finder.Selection.{Alike, Alike-append_for, included-Alike, apply_ex_matchers-Alike}
use goutil.Finder.Finding.{
  walk_all, AllSound, found, find-stand, find-walk_all, count_found, init_config-scan_dirs,
  init_config-use_abs_path, init_config-cache_result,
}

-- Two configurations that the walk cannot tell apart.
record SameChoice (c c' : Config) : Type 0 where
  same_passes_dir : (el : Elem) → passes_dir c el ≡ passes_dir c' el
  same_sends_dir : (el : Elem) → sends_dir c el ≡ sends_dir c' el
  same_enters : (d : ℕ) (el : Elem) → enters c d el ≡ enters c' d el
  same_passes_file : (el : Elem) → passes_file c el ≡ passes_file c' el

only_if_cong :
    {a a' b b' m m' : Bool} (xs ys ys' : List Elem)
    → a ≡ a'
    → b ≡ b'
    → m ≡ m'
    → ys ≡ ys'
    → only_if a (only_if b xs ++ only_if m ys) ≡ only_if a' (only_if b' xs ++ only_if m' ys')
only_if_cong xs ys ys' ea eb em e = rw (ea, eb, em, e)

module _ (join_path : Text → Text → Text) {c c' : Config} (same : SameChoice c c') where
  mutual
    unfolding walk

    walk-SameChoice :
        (d : ℕ) (p : Text) (l : Listing) → walk join_path c d p l ≡ walk join_path c' d p l
    walk-SameChoice d p unreadable = refl
    walk-SameChoice d p (entries es) = walk_entries-SameChoice (suc d) p es

    walk_entries-SameChoice :
        (d : ℕ) (p : Text) (es : Entries)
        → walk_entries join_path c d p es ≡ walk_entries join_path c' d p es
    walk_entries-SameChoice d p nil = refl
    walk_entries-SameChoice d p (cons e es) =
        rw (walk_entry-SameChoice d p e, walk_entries-SameChoice d p es)

    walk_entry-SameChoice :
        (d : ℕ) (p : Text) (e : Entry)
        → walk_entry join_path c d p e ≡ walk_entry join_path c' d p e
    walk_entry-SameChoice d p (file name stat) =
        let el : Elem = record {
          path = join_path p name;
          name = name;
          is_dir = false;
          info = stat;
        } in
        ap (λ b. only_if b (el ∷ [])) (same.same_passes_file el)
    walk_entry-SameChoice d p (dir name stat sub) =
        let el : Elem = record {
          path = join_path p name;
          name = name;
          is_dir = true;
          info = stat;
        } in
        only_if_cong _ _ _ (same.same_passes_dir el) (same.same_sends_dir el)
          (same.same_enters d el) (walk-SameChoice d (join_path p name) sub)

-- The same tests from the same settings and matchers that decide alike.
module _ {c c' : Config} (flags : c.find_flags ≡ c'.find_flags)
    (depths : c.max_depth ≡ c'.max_depth) (dot_dir : c.exclude_dot_dir ≡ c'.exclude_dot_dir)
    (dot_file : c.exclude_dot_file ≡ c'.exclude_dot_file) (ms : Alike c.matchers c'.matchers)
    (exs : Alike c.ex_matchers c'.ex_matchers) (dms : Alike c.dir_matchers c'.dir_matchers)
    (dexs : Alike c.dir_ex_matchers c'.dir_ex_matchers)
    (fms : Alike c.file_matchers c'.file_matchers)
    (fexs : Alike c.file_ex_matchers c'.file_ex_matchers) where
  SameChoice-of_Alike : SameChoice c c'
  unfolding sends_dir
  SameChoice-of_Alike = record {
    same_passes_dir = λ el.
        let e = apply_ex_matchers-Alike el _ _ exs in
        let e' = apply_ex_matchers-Alike el _ _ dexs in cc (dot_dir, e, e');
    same_sends_dir = λ el. let e = included-Alike el _ _ _ _ ms dms in cc (flags, e);
    same_enters = λ d el. let e = included-Alike el _ _ _ _ ms dms in cc (flags, depths, e);
    same_passes_file = λ el.
        let e = apply_ex_matchers-Alike el _ _ exs in
        let e' = apply_ex_matchers-Alike el _ _ fexs in
        let e'' = included-Alike el _ _ _ _ ms fms in cc (dot_file, flags, e, e', e'');
  }

module _ (path_match : Text → Text → Option Bool) where
  module _ (c : Config) (z : ℤ) where
    -- The matchers built once more, at any depth.
    build-build :
        SameChoice
          (build_matchers path_match (record (build_matchers path_match c) { depth = z }))
          (build_matchers path_match c)
    unfolding build_matchers
    build-build =
        let names = match_names path_match in
        SameChoice-of_Alike refl refl refl refl
          (Alike-append_for c.include_names c.include_paths names match_paths c.matchers)
          (Alike-append_for c.exclude_paths c.exclude_names match_paths names c.ex_matchers)
          (Alike-append_for c.include_dirs [] names names c.dir_matchers)
          (Alike-append_for c.exclude_dirs [] names names c.dir_ex_matchers)
          (Alike-append_for c.include_exts c.include_files match_exts names c.file_matchers)
          (Alike-append_for c.exclude_exts c.exclude_files match_exts names c.file_ex_matchers)

    depth-SameChoice : SameChoice (record c { depth = z }) c
    depth-SameChoice =
        SameChoice-of_Alike refl refl refl refl (λ el. refl, refl) (λ el. refl, refl)
          (λ el. refl, refl) (λ el. refl, refl) (λ el. refl, refl) (λ el. refl, refl)

    built_init : (build_matchers path_match c).init ≡ c.init
    unfolding build_matchers
    built_init = refl

    init-init :
        SameChoice
          (init_config path_match (record (init_config path_match c) { depth = z }))
          (init_config path_match c)
    unfolding init_config
    init-init = elim (Bool-cases c.init) [
      | inl e ↦
          let done_once : init_config path_match c ≡ c = if_true _ _ e in
          let done_twice : init_config path_match (record c { depth = z })
              ≡ record c { depth = z } =
            if_true _ _ e in
          subst (λ x. SameChoice (init_config path_match (record x { depth = z })) x)
            (sym done_once) (subst (λ y. SameChoice y c) (sym done_twice) depth-SameChoice)
      | inr e ↦
          let built = build_matchers path_match c in
          let done_once : init_config path_match c ≡ built = if_false _ _ e in
          let done_twice : init_config path_match (record built { depth = z })
              ≡ build_matchers path_match (record built { depth = z }) =
            if_false _ _ (built_init ∙ e) in
          subst (λ x. SameChoice (init_config path_match (record x { depth = z })) x)
            (sym done_once) (subst (λ y. SameChoice y built) (sym done_twice) build-build)
    ]

module _ (join_path : Text → Text → Text) (abs_path : Text → Option Text)
    (read_dir : Text → Listing) (path_match : Text → Text → Option Bool) where
  walk_all-SameChoice :
      {c c' : Config} (ps : List Text)
      → SameChoice c c'
      → walk_all join_path abs_path read_dir path_match c ps
        ≡ walk_all join_path abs_path read_dir path_match c' ps
  walk_all-SameChoice [] same = refl
  walk_all-SameChoice (p ∷ ps) same =
      rw (walk-SameChoice join_path same 0 p (read_dir p), walk_all-SameChoice ps same)

  -- Without a cache, with relative paths and directories that can all be read, two calls of `Find` in
  -- a row give the same elements and the same count, though the second has each matcher of the
  -- settings twice.
  pub find-find_again :
      (f : Finder)
      → f.caches ≡ []
      → f.c.use_abs_path ≡ false
      → f.c.cache_result ≡ false
      → AllSound join_path abs_path read_dir path_match f.c.scan_dirs
      → (g : Finder) × (g' : Finder) × (find join_path abs_path read_dir path_match f ≡ done g)
        × (find join_path abs_path read_dir path_match g ≡ done g')
        × (g'.ch ≡ g.ch)
        × (g'.num ≡ g.num)
  unfolding prepare
  find-find_again f none_cached rel off sound =
      let (z, e) = find-stand join_path abs_path read_dir path_match f none_cached rel sound in
      let found_by = found join_path abs_path read_dir path_match in
      let g = stand (prepare path_match f) z (found_by f) in
      let same_dirs : g.c.scan_dirs ≡ f.c.scan_dirs =
        init_config-scan_dirs join_path abs_path read_dir path_match f.c in
      let again : found_by g ≡ found_by f =
        ap (walk_all join_path abs_path read_dir path_match (init_config path_match g.c)) same_dirs
        ∙ walk_all-SameChoice f.c.scan_dirs (init-init path_match f.c z) in
      let (g', e', ch, num, _, _) =
        find-walk_all join_path abs_path read_dir path_match g
          (if_false _ _ (init_config-cache_result join_path abs_path read_dir path_match f.c ∙ off)
            ∙ none_cached)
          (init_config-use_abs_path join_path abs_path read_dir path_match f.c ∙ rel)
          (subst (AllSound join_path abs_path read_dir path_match) (sym same_dirs) sound) in
      (
        g,
        g',
        e,
        e',
        ch ∙ again,
        num
            ∙ ap length again
            ∙ sym (count_found join_path abs_path read_dir path_match f z none_cached),
      )
