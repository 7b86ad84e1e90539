-- ===== src/Finder/Depth.antt =====
-- A maximal depth against the tree cut off at it.
use goutil.Prelude.{
  ℕ, zero, suc, ◌+◌, ◌≡◌, refl, sym, ap, ◌∙◌, arith, Bool, true, false, not, ◌&&◌, ◌||◌, List, [],
  ◌∷◌, ◌++◌, length,
}
use goutil.Prelude.Int.{pos, ◌==ℤ◌, ltb_ℤ}
use goutil.Text.{Text}
use goutil.Finder.{
  Entry, file, dir, Listing, unreadable, entries, Entries, nil, cons, Elem, only_dir, Config,
  Finder,
}
use goutil.Finder.Walk.{sends_dir, find_dir, with_depth}
use goutil.Finder.Setters.{with_max_depth}
use goutil.Prelude.Outcome.{done}
use goutil.Finder.Refinement.{
  walk, walk_entries, walk_entry, only_if, passes_dir, enters, IsSound, AreSound, IsSoundEntry,
  stand_self, after, find_dir-walk,
}

-- A tree with its directories emptied from a number of levels on.
unfoldable mutual
  pub prune : ℕ → Listing → Listing
  prune k unreadable = unreadable
  prune k (entries es) = entries (prune_entries k es)

  pub prune_entries : ℕ → Entries → Entries
  prune_entries k nil = nil
  prune_entries k (cons e es) = cons (prune_entry k e) (prune_entries k es)

  pub prune_entry : ℕ → Entry → Entry
  prune_entry k (file name stat) = file name stat
  prune_entry zero (dir name stat sub) = dir name stat (entries nil)
  prune_entry (suc k) (dir name stat sub) = dir name stat (prune k sub)

abbrev pub with_max : Config → ℕ → Config
with_max c n = record c { max_depth = pos n }

at_limit : (d : ℕ) → ((pos (suc d + 0) ==ℤ pos 0) || ltb_ℤ (pos (suc d)) (pos (suc d + 0))) ≡ false
at_limit d = ground arith

below_limit :
    (d k : ℕ)
    → ((pos (suc d + suc k) ==ℤ pos 0) || ltb_ℤ (pos (suc d)) (pos (suc d + suc k))) ≡ true
below_limit d k = ground arith

only_if_nil : {A : Type 0} (b : Bool) → only_if {A = A} b [] ≡ []
only_if_nil true = refl
only_if_nil false = refl

unentered : {A : Type 0} (o m : Bool) (xs : List A) → m ≡ false → only_if (not o && m) xs ≡ []
unentered true m xs h = refl
unentered false m xs h = rw h

only_if-congr :
    {A : Type 0} (o : Bool) {m m' : Bool} {xs ys : List A}
    → m ≡ m'
    → xs ≡ ys
    → only_if (not o && m) xs ≡ only_if (not o && m') ys
only_if-congr o h e = rw (h, e)

module _ (join_path : Text → Text → Text) (c : Config) where
  mutual
    unfolding walk prune sends_dir

    walk-prune :
        (d k : ℕ) (p : Text) (l : Listing)
        → walk join_path (with_max c (suc d + k)) d p l
          ≡ walk join_path (with_max c 0) d p (prune k l)
    walk-prune d k p unreadable = refl
    walk-prune d k p (entries es) = walk_entries-prune d k p es

    walk_entries-prune :
        (d k : ℕ) (p : Text) (es : Entries)
        → walk_entries join_path (with_max c (suc d + k)) (suc d) p es
          ≡ walk_entries join_path (with_max c 0) (suc d) p (prune_entries k es)
    walk_entries-prune d k p nil = refl
    walk_entries-prune d k p (cons e es) =
        rw (walk_entry-prune d k p e, walk_entries-prune d k p es)

    walk_entry-prune :
        (d k : ℕ) (p : Text) (e : Entry)
        → walk_entry join_path (with_max c (suc d + k)) (suc d) p e
          ≡ walk_entry join_path (with_max c 0) (suc d) p (prune_entry k e)
    walk_entry-prune d k p (file name stat) = refl
    walk_entry-prune d zero p (dir name stat sub) =
        let el : Elem = record {
          path = join_path p name;
          name = name;
          is_dir = true;
          info = stat;
        } in
        let o = sends_dir c el && only_dir c.find_flags in
        ap (λ below. only_if (passes_dir c el) (only_if (sends_dir c el) (el ∷ []) ++ below))
          (unentered o _ (walk join_path (with_max c (suc d + 0)) (suc d) (join_path p name) sub)
              (at_limit d)
            ∙ sym (only_if_nil (enters (with_max c 0) (suc d) el)))
    walk_entry-prune d (suc k) p (dir name stat sub) =
        let el : Elem = record {
          path = join_path p name;
          name = name;
          is_dir = true;
          info = stat;
        } in
        let o = sends_dir c el && only_dir c.find_flags in
        let e : suc d + suc k ≡ suc (suc d) + k = omega arith in
        ap (λ below. only_if (passes_dir c el) (only_if (sends_dir c el) (el ∷ []) ++ below))
          (only_if-congr o (below_limit d k) (
            ap (λ n. walk join_path (with_max c n) (suc d) (join_path p name) sub) e
            ∙ walk-prune (suc d) k (join_path p name) sub))

  pub walk-prune_root :
      (n : ℕ) (p : Text) (l : Listing)
      → walk join_path (with_max c (n + 1)) 0 p l ≡ walk join_path (with_max c 0) 0 p (prune n l)
  walk-prune_root n p l =
      let e : n + 1 ≡ 1 + n = omega arith in
      ap (λ m. walk join_path (with_max c m) 0 p l) e ∙ walk-prune 0 n p l

mutual
  unfolding prune IsSound

  prune-IsSound : (k : ℕ) (l : Listing) → IsSound l → IsSound (prune k l)
  prune-IsSound k unreadable h = h
  prune-IsSound k (entries es) h = prune_entries-AreSound k es h

  prune_entries-AreSound : (k : ℕ) (es : Entries) → AreSound es → AreSound (prune_entries k es)
  prune_entries-AreSound k nil h = h
  prune_entries-AreSound k (cons e es) (h, hs) =
      (prune_entry-IsSoundEntry k e h, prune_entries-AreSound k es hs)

  prune_entry-IsSoundEntry : (k : ℕ) (e : Entry) → IsSoundEntry e → IsSoundEntry (prune_entry k e)
  prune_entry-IsSoundEntry k (file name stat) h = h
  prune_entry-IsSoundEntry k (dir [] stat sub) h = absurd h
  prune_entry-IsSoundEntry zero (dir (ch ∷ name) stat sub) h = tt
  prune_entry-IsSoundEntry (suc k) (dir (ch ∷ name) stat sub) h = prune-IsSound k sub h

-- The finder before the search of one directory.
abbrev pub at_start : Finder → Finder
at_start f = with_depth (λ d. pos 0) f

-- With a maximal depth of n + 1, the search of a directory that can be read throughout gives what the
-- search without a maximal depth gives of the tree whose directories are emptied below n levels, and
-- the same count.
pub find_dir-prune :
    (join_path : Text → Text → Text) (n : ℕ) (p : Text) (l : Listing) (f : Finder)
    → IsSound l
    → (g : Finder) × (h : Finder) × (find_dir join_path p l
          (at_start (with_max_depth (pos (n + 1)) f))
        ≡ done g)
      × (find_dir join_path p (prune n l) (at_start (with_max_depth (pos 0) f)) ≡ done h)
      × (g.ch ≡ h.ch)
      × (g.num ≡ h.num)
unfolding with_max_depth
find_dir-prune join_path n p l f sound =
    let f₁ = at_start (with_max_depth (pos (n + 1)) f) in
    let f₂ = at_start (with_max_depth (pos 0) f) in
    let els = walk-prune_root join_path (at_start f).c n p l in
    (
      after f₁ 1 (walk join_path f₁.c 0 p l),
      after f₂ 1 (walk join_path f₂.c 0 p (prune n l)),
      ap (find_dir join_path p l) (stand_self f₁) ∙ find_dir-walk join_path f₁ 0 p l [] sound,
      ap (find_dir join_path p (prune n l)) (stand_self f₂)
          ∙ find_dir-walk join_path f₂ 0 p (prune n l) [] (prune-IsSound n l sound),
      ap (λ xs. f.ch ++ xs) els,
      ap (λ xs. f.num + length xs) els,
    )
