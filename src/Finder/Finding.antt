-- ===== src/Finder/Finding.antt =====
-- `Find` as a whole: what the channel gives, what is counted and cached, and the replay of a cache.
use goutil.Prelude.{
  ℕ, ◌+◌, ◌≡◌, refl, ap, ◌∙◌, arith, Bool, true, false, not, ◌&&◌, List, [], ◌∷◌, ◌++◌, Option,
  none, if◌then◌else◌, length, append-nil, append_assoc, Bool-cases, if_true, if_false, inl, inr,
}
use goutil.Prelude.Int.{ℤ, pos}
use goutil.Prelude.Outcome.{Outcome, done, ◌>>=◌}
use goutil.Text.{Text}
use goutil.Finder.{Listing, Elem, Config, Finder}
use goutil.Finder.Setup.{init_config}
use goutil.Finder.Walk.{is_nil, scan, find, prepare, find_dir, with_depth}
use goutil.Finder.Refinement.{IsSound, walk, stand, stand_self, find_dir-walk}

module _ (join_path : Text → Text → Text) (abs_path : Text → Option Text)
    (read_dir : Text → Listing) (path_match : Text → Text → Option Bool) where
  -- What the walks of the scanned directories give, one after the other.
  abbrev pub walk_all : Config → List Text → List Elem
  walk_all c [] = []
  walk_all c (p ∷ ps) = walk join_path c 0 p (read_dir p) ++ walk_all c ps

  abbrev pub AllSound : List Text → Type 0
  AllSound [] = Unit
  AllSound (p ∷ ps) = IsSound (read_dir p) × AllSound ps

  scan-step :
      (f : Finder) (p : Text) (ps : List Text)
      → f.c.use_abs_path ≡ false
      → scan join_path abs_path read_dir (p ∷ ps) f ≡ (
          find_dir join_path p (read_dir p) (with_depth (λ d. pos 0) f) >>= λ g.
          scan join_path abs_path read_dir ps g)
  unfolding scan
  scan-step f p ps rel = if_false _ _ rel

  scan-walk_all :
      (f : Finder) (z : ℤ) (dirs : List Text) (acc : List Elem)
      → f.c.use_abs_path ≡ false
      → AllSound dirs
      → (z' : ℤ) × (scan join_path abs_path read_dir dirs (stand f z acc)
          ≡ done (stand f z' (acc ++ walk_all f.c dirs)))
  unfolding scan
  scan-walk_all f z [] acc rel h = (z, rw (append-nil acc))
  scan-walk_all f z (p ∷ ps) acc rel (h, hs) =
      let here = walk join_path f.c 0 p (read_dir p) in
      let (z', rest) = scan-walk_all f (pos 1) ps (acc ++ here) rel hs in
      (
        z',
        scan-step (stand f z acc) p ps rel
            ∙ ap (λ m. m >>= λ g. scan join_path abs_path read_dir ps g)
                (find_dir-walk join_path f 0 p (read_dir p) acc h)
            ∙ rest
            ∙ ap (λ l. done (stand f z' l)) (append_assoc acc here (walk_all f.c ps)),
      )

  module _ (c : Config) where
    pub init_config-scan_dirs : (init_config path_match c).scan_dirs ≡ c.scan_dirs
    unfolding init_config
    init_config-scan_dirs = elim (Bool-cases c.init) [
      | inl e ↦ ap Config.scan_dirs (if_true _ _ e)
      | inr e ↦ ap Config.scan_dirs (if_false _ _ e)
    ]

    pub init_config-use_abs_path : (init_config path_match c).use_abs_path ≡ c.use_abs_path
    unfolding init_config
    init_config-use_abs_path = elim (Bool-cases c.init) [
      | inl e ↦ ap Config.use_abs_path (if_true _ _ e)
      | inr e ↦ ap Config.use_abs_path (if_false _ _ e)
    ]

    pub init_config-cache_result : (init_config path_match c).cache_result ≡ c.cache_result
    unfolding init_config
    init_config-cache_result = elim (Bool-cases c.init) [
      | inl e ↦ ap Config.cache_result (if_true _ _ e)
      | inr e ↦ ap Config.cache_result (if_false _ _ e)
    ]

  -- What `Find` is to give: the walk of the directories to scan, with the matchers built.
  abbrev pub found : Finder → List Elem
  found f = walk_all (init_config path_match f.c) f.c.scan_dirs

  abbrev pub run_scan : List Text → Finder → Outcome Finder
  run_scan = scan join_path abs_path read_dir

  abbrev pub run_find : Finder → Outcome Finder
  run_find = find join_path abs_path read_dir path_match

  zero_add : (n : ℕ) → 0 + n ≡ n
  zero_add n = omega arith

  no_replay : (b : Bool) {els : List Elem} → els ≡ [] → (b && not (is_nil els)) ≡ false
  no_replay true h = rw h
  no_replay false h = refl

  pub find-stand :
      (f : Finder)
      → f.caches ≡ []
      → f.c.use_abs_path ≡ false
      → AllSound f.c.scan_dirs
      → (z : ℤ) × (run_find f ≡ done (stand (prepare path_match f) z (found f)))
  unfolding find
  find-stand f none_cached rel sound =
      let g = prepare path_match f in
      let (z, e) =
        scan-walk_all g g.c.depth f.c.scan_dirs [] (init_config-use_abs_path f.c ∙ rel) sound in
      (
        z,
        if_false _ _ (no_replay g.c.cache_result none_cached)
            ∙ ap (λ dirs. run_scan dirs g) (init_config-scan_dirs f.c)
            ∙ ap (run_scan f.c.scan_dirs) (stand_self g)
            ∙ e,
      )

  pub count_found :
      (f : Finder) (z : ℤ)
      → f.caches ≡ []
      → (stand (prepare path_match f) z (found f)).num ≡ length (found f)
  unfolding prepare
  count_found f z none_cached =
      ap (λ els. (if is_nil els then 0 else f.num) + length (found f)) none_cached
      ∙ zero_add (length (found f))

  -- With nothing cached, relative paths and directories that can all be read, `Find` gives on its
  -- channel the walk of the directories, and no other element; it counts them, has no error, and
  -- caches them where results are cached.
  pub find-walk_all :
      (f : Finder)
      → f.caches ≡ []
      → f.c.use_abs_path ≡ false
      → AllSound f.c.scan_dirs
      → (g : Finder) × (find join_path abs_path read_dir path_match f ≡ done g)
        × (g.ch ≡ found f)
        × (g.num ≡ length (found f))
        × (g.err ≡ none)
        × (g.caches ≡ (if f.c.cache_result then found f else []))
  unfolding prepare
  find-walk_all f none_cached rel sound =
      let (z, e) = find-stand f none_cached rel sound in
      (
        stand (prepare path_match f) z (found f),
        e,
        refl,
        count_found f z none_cached,
        refl,
        ap (λ b. if b then f.caches ++ found f else f.caches) (init_config-cache_result f.c)
            ∙ ap (λ els. if f.c.cache_result then els ++ found f else els) none_cached,
      )
