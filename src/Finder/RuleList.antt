-- ===== src/Finder/RuleList.antt =====
-- Where a list of rules stops.
use goutil.Prelude.{
  ℕ, suc, ◌+◌, ◌≡◌, refl, sym, ap, ◌∙◌, arith, Bool, true, false, not, ◌&&◌, ◌||◌, List, [], ◌∷◌,
  ◌++◌, Option, none, some, length, append-nil, if◌then◌else◌,
}
use goutil.Prelude.Outcome.{Outcome, done, panics, ◌>>=◌, >>=_ext}
use goutil.Text.{Text, codes, contains_char}
use goutil.Strutil.Cut.{is_empty, split, trim_cut}
use goutil.Finder.{Matcher, Config, invalid_rule}
use goutil.Finder.Setup.{rule_kind, load_rule, load_loop}

-- A rule `name: patterns` with both parts.
abbrev pub well_formed : Text → Bool
well_formed rule =
    contains_char rule b':'
    && not (is_empty (trim_cut rule (codes ":")).0)
    && not (is_empty (trim_cut rule (codes ":")).1)

abbrev pub AllWellFormed : List Text → Type 0
AllWellFormed [] = Unit
AllWellFormed (rule ∷ rules) = (well_formed rule ≡ true) × AllWellFormed rules

>>=_assoc :
    {A B C : Type 0} (m : Outcome A) (f : A → Outcome B) (g : B → Outcome C)
    → (m >>= λ a. f a >>= g) ≡ ((m >>= f) >>= g)
>>=_assoc (done a) f g = refl
>>=_assoc panics f g = refl

if_well_formed :
    {A : Type 0} (a b c : Bool) (x y : A)
    → a && not b && not c ≡ true
    → (if not a then x else if b || c then x else y) ≡ y
if_well_formed a b c x y h = ground arith

if_invalid :
    {A : Type 0} (a b c : Bool) (x y : A)
    → a && not b && not c ≡ false
    → (if not a then x else if b || c then x else y) ≡ x
if_invalid a b c x y h = ground arith

module _ (human_size human_mod_time : Text → Option Matcher) where
  -- What one rule does.
  abbrev pub apply_rule : Bool → Text → Config → Outcome Config
  apply_rule add rule c =
      load_rule human_size human_mod_time add (rule_kind (trim_cut rule (codes ":")).0)
        (split (trim_cut rule (codes ":")).1 (codes ",")) c

  abbrev pub apply_rules : Bool → List Text → Config → Outcome Config
  apply_rules add [] c = done c
  apply_rules add (rule ∷ rules) c = apply_rule add rule c >>= apply_rules add rules

  -- One well-formed rule in front of others.
  load_loop-cons :
      (add : Bool) (i : ℕ) (rule : Text) (rules : List Text) (c : Config)
      → well_formed rule ≡ true
      → load_loop human_size human_mod_time add i (rule ∷ rules) c
        ≡ (apply_rule add rule c >>= load_loop human_size human_mod_time add (i + 1) rules)
  unfolding load_loop
  load_loop-cons add i rule rules c h =
      if_well_formed (contains_char rule b':') (is_empty (trim_cut rule (codes ":")).0)
        (is_empty (trim_cut rule (codes ":")).1) _ _ h

  load_loop-invalid :
      (add : Bool) (i : ℕ) (rule : Text) (rules : List Text) (c : Config)
      → well_formed rule ≡ false
      → load_loop human_size human_mod_time add i (rule ∷ rules) c
        ≡ done (c, some (invalid_rule i rule))
  unfolding load_loop
  load_loop-invalid add i rule rules c h =
      if_invalid (contains_char rule b':') (is_empty (trim_cut rule (codes ":")).0)
        (is_empty (trim_cut rule (codes ":")).1) _ _ h

  -- Well-formed rules are done, and the loop goes on with the rest.
  load_loop-rest :
      (add : Bool) (i : ℕ) (rules rest : List Text) (c : Config)
      → AllWellFormed rules
      → load_loop human_size human_mod_time add i (rules ++ rest) c ≡ (
          apply_rules add rules c
          >>= load_loop human_size human_mod_time add (i + length rules) rest)
  load_loop-rest add i [] rest c h = let e : i + 0 ≡ i = omega arith in rw e refl
  load_loop-rest add i (rule ∷ rules) rest c (hr, h) =
      let e : i + suc (length rules) ≡ i + 1 + length rules = omega arith in
      load_loop-cons add i rule (rules ++ rest) c hr
      ∙ >>=_ext (apply_rule add rule c) (λ c'. load_loop-rest add (i + 1) rules rest c' h)
      ∙ rw e (>>=_assoc (apply_rule add rule c) (apply_rules add rules) _)

  -- Rules of the form `name: patterns` with both parts, which need not be known names, are applied
  -- one after the other, and without another rule there is no error. With an invalid rule behind
  -- them, no rule behind that is applied, and the error has its index and its text.
  pub load_loop-first_invalid :
      (add : Bool) (i : ℕ) (rules : List Text) (rule : Text) (more : List Text) (c : Config)
      → AllWellFormed rules
      → well_formed rule ≡ false
      → (load_loop human_size human_mod_time add i rules c
          ≡ (apply_rules add rules c >>= λ c'. done (c', none)))
        × (load_loop human_size human_mod_time add i (rules ++ rule ∷ more) c ≡ (
            apply_rules add rules c >>= λ c'.
            done (c', some (invalid_rule (i + length rules) rule))))
  load_loop-first_invalid add i rules rule more c hs h = (
    ap (λ t. load_loop human_size human_mod_time add i t c) (sym (append-nil rules))
        ∙ load_loop-rest add i rules [] c hs
        ∙ >>=_ext (apply_rules add rules c) (λ c'. unfold load_loop in refl),
    load_loop-rest add i rules (rule ∷ more) c hs
        ∙ >>=_ext (apply_rules add rules c)
            (λ c'. load_loop-invalid add (i + length rules) rule more c' h),
  )
