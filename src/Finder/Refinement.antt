-- ===== src/Finder/Refinement.antt =====
-- The search against its specification: the tree is walked in order, and what is sent is a function
-- of the tree, the configuration and the depth.
use goutil.Prelude.{
  ℕ, suc, ◌+◌, ◌≡◌, refl, ap, ◌∙◌, arith, Bool, true, false, not, ◌&&◌, ◌||◌, List, [], ◌∷◌, ◌++◌,
  ◌==◌, if◌then◌else◌, length, length-append, append-nil, append_assoc, Bool-cases, inl, inr,
}
use goutil.Prelude.Int.{ℤ, pos, ◌+ℤ◌, ◌-ℤ◌, ◌==ℤ◌, ltb_ℤ}
use goutil.Prelude.Outcome.{Outcome, done, ◌>>=◌}
use goutil.Text.{Text}
use goutil.Finder.{
  Entry, file, dir, Listing, unreadable, entries, Entries, nil, cons, Elem, finds_file, only_dir,
  Config, Finder,
}
use goutil.Finder.Walk.{
  apply_ex_matchers, included, send, sends_dir, find_file, find_dir, find_entries, find_entry,
  may_enter, with_depth,
}

-- Every directory below can be read, and no entry has an empty name.
unfoldable mutual
  pub IsSound : Listing → Type 0
  IsSound unreadable = ⊥
  IsSound (entries es) = AreSound es

  pub AreSound : Entries → Type 0
  AreSound nil = Unit
  AreSound (cons e es) = IsSoundEntry e × AreSound es

  pub IsSoundEntry : Entry → Type 0
  IsSoundEntry (file [] stat) = ⊥
  IsSoundEntry (file (c ∷ name) stat) = Unit
  IsSoundEntry (dir [] stat sub) = ⊥
  IsSoundEntry (dir (c ∷ name) stat sub) = IsSound sub

abbrev pub hidden : Text → Bool → Bool
hidden [] exclude = false
hidden (ch ∷ name) exclude = (ch == b'.') && exclude

abbrev pub passes_dir : Config → Elem → Bool
passes_dir c el =
    not (hidden el.name c.exclude_dot_dir)
    && apply_ex_matchers el c.ex_matchers
    && apply_ex_matchers el c.dir_ex_matchers

abbrev pub enters : Config → ℕ → Elem → Bool
enters c d el =
    not (sends_dir c el && only_dir c.find_flags)
    && ((c.max_depth ==ℤ pos 0) || ltb_ℤ (pos d) c.max_depth)

abbrev pub passes_file : Config → Elem → Bool
passes_file c el =
    not (hidden el.name c.exclude_dot_file)
    && apply_ex_matchers el c.ex_matchers
    && finds_file c.find_flags
    && apply_ex_matchers el c.file_ex_matchers
    && included el c.matchers c.file_matchers

abbrev pub only_if : {A : Type 0} → Bool → List A → List A
only_if b xs = if b then xs else []

module _ (join_path : Text → Text → Text) (c : Config) where
  -- The elements below a directory, in the order of the walk, at a depth.
  unfoldable mutual
    pub walk : ℕ → Text → Listing → List Elem
    walk d p unreadable = []
    walk d p (entries es) = walk_entries (suc d) p es

    pub walk_entries : ℕ → Text → Entries → List Elem
    walk_entries d p nil = []
    walk_entries d p (cons e es) = walk_entry d p e ++ walk_entries d p es

    pub walk_entry : ℕ → Text → Entry → List Elem
    walk_entry d p (file name stat) =
        let el : Elem = record {
          path = join_path p name;
          name = name;
          is_dir = false;
          info = stat;
        } in
        only_if (passes_file c el) (el ∷ [])
    walk_entry d p (dir name stat sub) =
        let el : Elem = record {
          path = join_path p name;
          name = name;
          is_dir = true;
          info = stat;
        } in
        let below = walk d (join_path p name) sub in
        only_if (passes_dir c el)
          (only_if (sends_dir c el) (el ∷ []) ++ only_if (enters c d el) below)

-- The finder `f` when it has sent `els` and stands at depth `z`.
abbrev pub stand : Finder → ℤ → List Elem → Finder
stand f z els = record f {
  c = record f.c { depth = z };
  num = f.num + length els;
  ch = f.ch ++ els;
  caches = if f.c.cache_result then f.caches ++ els else f.caches;
}

abbrev pub after : Finder → ℕ → List Elem → Finder
after f d els = stand f (pos d) els

pub stand_self : (f : Finder) → f ≡ stand f f.c.depth []
stand_self f =
    let count : f.num + 0 ≡ f.num = omega arith in
    elim (Bool-cases f.c.cache_result) [
      | inl on ↦ rw (on, count, append-nil f.ch, append-nil f.caches)
      | inr off ↦ rw (off, count, append-nil f.ch)
    ]

deeper : (d : ℕ) → pos d +ℤ pos 1 ≡ pos (suc d)
deeper d = ground arith

back : (d : ℕ) → pos (suc d) -ℤ pos 1 ≡ pos d
back d = ground arith

module _ (f : Finder) (d : ℕ) where
  send-after : (acc : List Elem) (el : Elem) → send el (after f d acc) ≡ after f d (acc ++ el ∷ [])
  unfolding send
  send-after acc el =
      let count : f.num + length (acc ++ el ∷ []) ≡ f.num + length acc + 1 =
        omega (arith, length-append acc (el ∷ [])) in
      elim (Bool-cases f.c.cache_result) [
        | inl on ↦
            rw (on, count, append_assoc f.ch acc (el ∷ []), append_assoc f.caches acc (el ∷ []))
        | inr off ↦ rw (off, count, append_assoc f.ch acc (el ∷ []))
      ]

  only_if-send :
      (b : Bool) (acc : List Elem) (el : Elem)
      → (if b then send el (after f d acc) else after f d acc)
        ≡ after f d (acc ++ only_if b (el ∷ []))
  only_if-send true acc el = send-after acc el
  only_if-send false acc el = rw (append-nil acc)

  file_hidden :
      (hid a b e m : Bool) (acc : List Elem) (el : Elem) (g : Finder)
      → g ≡ after f d (acc ++ only_if (a && b && e && m) (el ∷ []))
      → (if hid then done (after f d acc) else done g)
        ≡ done (after f d (acc ++ only_if (not hid && a && b && e && m) (el ∷ [])))
  file_hidden true a b e m acc el g h = rw (append-nil acc)
  file_hidden false a b e m acc el g h = rw h

  file_guards :
      (a b e m : Bool) (acc : List Elem) (el : Elem)
      → (if not a
          then after f d acc
          else if not b
          then after f d acc
          else if not e
          then after f d acc
          else if m && b
          then send el (after f d acc)
          else after f d acc)
        ≡ after f d (acc ++ only_if (a && b && e && m) (el ∷ []))
  file_guards false b e m acc el = rw (append-nil acc)
  file_guards true false e m acc el = rw (append-nil acc)
  file_guards true true false m acc el = rw (append-nil acc)
  file_guards true true true false acc el = rw (append-nil acc)
  file_guards true true true true acc el = send-after acc el

  find_file-after :
      (acc : List Elem) (el : Elem)
      → find_file el (after f d acc)
        ≡ after f d (
            acc
            ++ only_if
                (apply_ex_matchers el f.c.ex_matchers
                  && finds_file f.c.find_flags
                  && apply_ex_matchers el f.c.file_ex_matchers
                  && included el f.c.matchers f.c.file_matchers)
                (el ∷ []))
  unfolding find_file
  find_file-after acc el =
      file_guards (apply_ex_matchers el f.c.ex_matchers) (finds_file f.c.find_flags)
        (apply_ex_matchers el f.c.file_ex_matchers) (included el f.c.matchers f.c.file_matchers) acc
        el

  dir_guards :
      (h a b s o m : Bool) (acc sub : List Elem) (el : Elem) (inner : Outcome Finder)
      → inner ≡ done (after f (suc d) (acc ++ only_if s (el ∷ []) ++ sub))
      → (if h
          then done (after f d acc)
          else if not a
          then done (after f d acc)
          else if not b
          then done (after f d acc)
          else if s && o
          then done (after f d (acc ++ only_if s (el ∷ [])))
          else if m
          then (inner >>= λ g. done (with_depth (λ d. d -ℤ pos 1) g))
          else done (after f d (acc ++ only_if s (el ∷ []))))
        ≡ done (
            after f d (
              acc
              ++ only_if
                  (not h && a && b)
                  (only_if s (el ∷ []) ++ only_if (not (s && o) && m) sub)))
  dir_guards true a b s o m acc sub el inner e = rw (append-nil acc)
  dir_guards false false b s o m acc sub el inner e = rw (append-nil acc)
  dir_guards false true false s o m acc sub el inner e = rw (append-nil acc)
  dir_guards false true true true true m acc sub el inner e = refl
  dir_guards false true true true false false acc sub el inner e = refl
  dir_guards false true true true false true acc sub el inner e =
      rw (e, back d, append_assoc acc (el ∷ []) sub)
  dir_guards false true true false o false acc sub el inner e = refl
  dir_guards false true true false o true acc sub el inner e = rw (e, back d, append-nil acc)

  dir_step :
      (h a b s o m : Bool) (acc sub : List Elem) (el : Elem)
      → (sent : Finder) (may : Bool) (inner : Outcome Finder)
      → sent ≡ after f d (acc ++ only_if s (el ∷ []))
      → may ≡ m
      → inner ≡ done (after f (suc d) (acc ++ only_if s (el ∷ []) ++ sub))
      → (if h
          then done (after f d acc)
          else if not a
          then done (after f d acc)
          else if not b
          then done (after f d acc)
          else if s && o
          then done sent
          else if may
          then (inner >>= λ g. done (with_depth (λ d. d -ℤ pos 1) g))
          else done sent)
        ≡ done (
            after f d (
              acc
              ++ only_if
                  (not h && a && b)
                  (only_if s (el ∷ []) ++ only_if (not (s && o) && m) sub)))
  dir_step h a b s o m acc sub el sent may inner es em e =
      rw (es, em) (dir_guards h a b s o m acc sub el inner e)

module _ (join_path : Text → Text → Text) (f : Finder) where
  mutual
    unfolding find_dir walk IsSound sends_dir

    pub find_dir-walk :
        (d : ℕ) (p : Text) (l : Listing) (acc : List Elem)
        → IsSound l
        → find_dir join_path p l (after f d acc)
          ≡ done (after f (suc d) (acc ++ walk join_path f.c d p l))
    find_dir-walk d p unreadable acc h = absurd h
    find_dir-walk d p (entries es) acc h = rw (deeper d) (find_entries-walk (suc d) p es acc h)

    find_entries-walk :
        (d : ℕ) (p : Text) (es : Entries) (acc : List Elem)
        → AreSound es
        → find_entries join_path p es (after f d acc)
          ≡ done (after f d (acc ++ walk_entries join_path f.c d p es))
    find_entries-walk d p nil acc h = rw (append-nil acc)
    find_entries-walk d p (cons e es) acc (he, hes) =
        let first = find_entry-walk d p e acc he in
        let others = find_entries-walk d p es (acc ++ walk_entry join_path f.c d p e) hes in
        rw (
          first,
          others,
          append_assoc acc (walk_entry join_path f.c d p e) (walk_entries join_path f.c d p es),
        )

    find_entry-walk :
        (d : ℕ) (p : Text) (e : Entry) (acc : List Elem)
        → IsSoundEntry e
        → find_entry join_path p e (after f d acc)
          ≡ done (after f d (acc ++ walk_entry join_path f.c d p e))
    find_entry-walk d p (file [] stat) acc h = absurd h
    find_entry-walk d p (dir [] stat sub) acc h = absurd h
    find_entry-walk d p (file (ch ∷ name) stat) acc h =
        let el : Elem = record {
          path = join_path p (ch ∷ name);
          name = ch ∷ name;
          is_dir = false;
          info = stat;
        } in
        file_hidden f d ((ch == b'.') && f.c.exclude_dot_file)
          (apply_ex_matchers el f.c.ex_matchers) (finds_file f.c.find_flags)
          (apply_ex_matchers el f.c.file_ex_matchers) (included el f.c.matchers f.c.file_matchers)
          acc el (find_file el (after f d acc)) (find_file-after f d acc el)
    find_entry-walk d p (dir (ch ∷ name) stat sub) acc h =
        let full = join_path p (ch ∷ name) in
        let el : Elem = record { path = full; name = ch ∷ name; is_dir = true; info = stat } in
        let s = sends_dir f.c el in
        let sent = if s then send el (after f d acc) else after f d acc in
        let es = only_if-send f d s acc el in
        dir_step f d ((ch == b'.') && f.c.exclude_dot_dir) (apply_ex_matchers el f.c.ex_matchers)
          (apply_ex_matchers el f.c.dir_ex_matchers) s (only_dir f.c.find_flags)
          ((f.c.max_depth ==ℤ pos 0) || ltb_ℤ (pos d) f.c.max_depth) acc
          (walk join_path f.c d full sub) el sent (may_enter sent.c)
          (find_dir join_path full sub sent) es (ap (λ g. may_enter g.c) es)
          (ap (find_dir join_path full sub) es
            ∙ find_dir-walk d full sub (acc ++ only_if s (el ∷ [])) h)
