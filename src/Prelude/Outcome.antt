-- ===== src/Prelude/Outcome.antt =====
-- The result of Go code that may panic: an index out of range, a nil map, an explicit `panic`.
use mathlib.Core.Path.{◌≡◌, refl}

pub data Outcome {ℓ} (A : Type ℓ) : Type ℓ where
  done : A → Outcome A
  panics : Outcome A

infixl 5 ◌>>=◌
abbrev pub ◌>>=◌ {ℓ κ} : {A : Type ℓ} {B : Type κ} → Outcome A → (A → Outcome B) → Outcome B
done a >>= f = f a
panics >>= f = panics

pub >>=-eq-done {ℓ κ} :
    {A : Type ℓ} {B : Type κ} (m : Outcome A) (f : A → Outcome B) {b : B}
    → (m >>= f) ≡ done b
    → (a : A) × (m ≡ done a) × (f a ≡ done b)
>>=-eq-done (done a) f h = (a, refl, h)
>>=-eq-done panics f h = cc

pub >>=_ext {ℓ κ} :
    {A : Type ℓ} {B : Type κ} (m : Outcome A) {f g : A → Outcome B}
    → ((a : A) → f a ≡ g a)
    → (m >>= f) ≡ (m >>= g)
>>=_ext (done a) h = h a
>>=_ext panics h = refl

-- There is a result.
pub data IsDone {ℓ} {A : Type ℓ} : Outcome A → Type ℓ where
  is_done : {a : A} → IsDone (done a)

pub >>=-IsDone {ℓ κ} :
    {A : Type ℓ} {B : Type κ} (m : Outcome A) (f : A → Outcome B)
    → IsDone m
    → ((a : A) → IsDone (f a))
    → IsDone (m >>= f)
>>=-IsDone (done a) f h k = k a
>>=-IsDone panics f h k = elim h [ ]

pub IsDone-value {ℓ} : {A : Type ℓ} (m : Outcome A) → IsDone m → (a : A) × (m ≡ done a)
IsDone-value (done a) h = (a, refl)
IsDone-value panics h = elim h [ ]
