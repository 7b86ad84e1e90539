-- ===== src/Finder/Walk.antt =====
-- fsutil/finder/finder.go: the search.
use goutil.Prelude.{
  ◌+◌, Bool, true, false, not, ◌&&◌, ◌||◌, List, [], ◌∷◌, ◌++◌, Option, none, some, ◌==◌,
  if◌then◌else◌,
}
use goutil.Prelude.Int.{ℤ, pos, ◌+ℤ◌, ◌-ℤ◌, ◌==ℤ◌, ltb_ℤ}
use goutil.Prelude.Outcome.{Outcome, done, panics, ◌>>=◌}
use goutil.Text.{Text}
use goutil.Finder.{
  Entry, file, dir, Listing, unreadable, entries, Entries, nil, cons, Elem, Matcher, finds_dir,
  finds_file, only_dir, Config, new_config, Finder, abs_error,
}
use goutil.Finder.Matchers.{any_of}
use goutil.Finder.Setup.{init_config}

abbrev pub is_nil : {A : Type 0} → List A → Bool
is_nil [] = true
is_nil (x ∷ xs) = false

-- `return len(fls) == 0` behind the loop.
unfoldable pub apply_matchers : Elem → List Matcher → Bool
unfolding any_of
apply_matchers el fls = if any_of (λ f. f el) fls then true else is_nil fls

unfoldable pub apply_ex_matchers : Elem → List Matcher → Bool
unfolding any_of
apply_ex_matchers el fls = if any_of (λ f. f el) fls then false else true

-- The generic matchers, or else those of the kind.
unfoldable pub included : Elem → List Matcher → List Matcher → Bool
unfolding apply_matchers
included el generic own =
    if not (is_nil generic)
    then if not (apply_matchers el generic) && not (is_nil own)
      then apply_matchers el own
      else apply_matchers el generic
    else apply_matchers el own

-- `f.caches = append(...)` where results are cached, `f.num++` and `f.ch <- el`.
unfoldable pub send : Elem → Finder → Finder
send el f = record f {
  caches = if f.c.cache_result then f.caches ++ el ∷ [] else f.caches;
  num = f.num + 1;
  ch = f.ch ++ el ∷ [];
}

abbrev pub with_depth : (ℤ → ℤ) → Finder → Finder
with_depth change f = record f { c = record f.c { depth = change f.c.depth } }

-- `name[0] == '.'`; an empty name panics.
abbrev pub is_dot : Text → Outcome Bool
is_dot [] = panics
is_dot (ch ∷ name) = done (ch == b'.')

-- `c.MaxDepth == 0 || c.depth < c.MaxDepth`
abbrev pub may_enter : Config → Bool
may_enter c = (c.max_depth ==ℤ pos 0) || ltb_ℤ c.depth c.max_depth

unfoldable pub sends_dir : Config → Elem → Bool
unfolding included
sends_dir c el = included el c.matchers c.dir_matchers && finds_dir c.find_flags

-- What the loop of `findDir` does with a file.
unfoldable pub find_file : Elem → Finder → Finder
unfolding apply_ex_matchers included send
find_file el f =
    if not (apply_ex_matchers el f.c.ex_matchers)
    then f
    else if not (finds_file f.c.find_flags)
    then f
    else if not (apply_ex_matchers el f.c.file_ex_matchers)
    then f
    else if included el f.c.matchers f.c.file_matchers && finds_file f.c.find_flags
    then send el f
    else f

-- `prepare`, on a finder that has a configuration.
unfoldable pub prepare : (Text → Text → Option Bool) → Finder → Finder
prepare path_match f = record f {
  err = none;
  ch = [];
  num = if is_nil f.caches then 0 else f.num;
  c = init_config path_match f.c;
}

module _ (join_path : Text → Text → Text) where
  unfoldable mutual
    pub find_dir : Text → Listing → Finder → Outcome Finder
    find_dir dir_path unreadable f = done f
    find_dir dir_path (entries des) f = find_entries dir_path des (with_depth (λ d. d +ℤ pos 1) f)

    pub find_entries : Text → Entries → Finder → Outcome Finder
    find_entries dir_path nil f = done f
    find_entries dir_path (cons ent des) f =
        find_entry dir_path ent f >>= λ g. find_entries dir_path des g

    pub find_entry : Text → Entry → Finder → Outcome Finder
    find_entry dir_path (file name stat) f = is_dot name >>= λ dot.
        if dot && f.c.exclude_dot_file
        then done f
        else done (
            find_file
              (record { path = join_path dir_path name; name = name; is_dir = false; info = stat })
              f)
    find_entry dir_path (dir name stat sub) f = is_dot name >>= λ dot.
        let full_path = join_path dir_path name in
        let el : Elem = record { path = full_path; name = name; is_dir = true; info = stat } in
        let sent = if sends_dir f.c el then send el f else f in
        let inner = find_dir full_path sub sent in
        if dot && f.c.exclude_dot_dir
        then done f
        else if not (apply_ex_matchers el f.c.ex_matchers)
        then done f
        else if not (apply_ex_matchers el f.c.dir_ex_matchers)
        then done f
        else if sends_dir f.c el && only_dir f.c.find_flags
        then done sent
        else if may_enter sent.c
        then (inner >>= λ g. done (with_depth (λ d. d -ℤ pos 1) g))
        else done sent

  module _ (abs_path : Text → Option Text) (read_dir : Text → Listing) where
    -- The loop of `find` over the directories to scan.
    unfoldable pub scan : List Text → Finder → Outcome Finder
    unfolding find_dir
    scan [] f = done f
    scan (dir_path ∷ dirs) f =
        let search : Text → Outcome Finder =
          λ p. find_dir p (read_dir p) (with_depth (λ d. pos 0) f) in
        if f.c.use_abs_path
        then elim (abs_path dir_path) [
          | none ↦ scan dirs (record f { err = some abs_error })
          | some p ↦ search p >>= λ g. scan dirs g
        ]
        else search dir_path >>= λ g. scan dirs g

    -- `find`, with the goroutine run to its end: what the channel has given when it is closed.
    unfoldable pub find : (Text → Text → Option Bool) → Finder → Outcome Finder
    unfolding prepare scan
    find path_match f =
        let g = prepare path_match f in
        if g.c.cache_result && not (is_nil g.caches)
        then done (record g { ch = g.caches })
        else scan g.c.scan_dirs g

unfoldable pub reset_result : Finder → Finder
reset_result f = record f { num = 0; err = none; ch = []; caches = [] }

unfoldable pub reset : Finder → Finder
unfolding reset_result new_config
reset f = reset_result (record f {
  c = record (new_config f.c.scan_dirs) {
    exclude_dot_dir = f.c.exclude_dot_dir;
    find_flags = f.c.find_flags;
    max_depth = f.c.max_depth;
  };
})
