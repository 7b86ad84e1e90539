-- ===== src/Errorx/Wrapping.antt =====
-- An error that is wrapped several times.
use goutil.Prelude.{◌≡◌, refl, sym, ap, ◌∙◌, List, [], ◌∷◌, ◌++◌, Option, none, some, append_assoc}
use goutil.Text.{Text, codes}
use goutil.Strutil.Cut.{join}
use goutil.Errorx.Chain.{
  GoError, raw, MaybeError, nil, an_error, cause, cause_of, unwrap, error_text, with_error,
  with_stack, wrap, stack_string,
}

-- A layer has a message, and the caller's stack if it is made by `With`; else it is made by `Wrap`.
abbrev pub Layer : Type 0
Layer = Text × Option Text

abbrev pub add_layer : Layer → GoError → GoError
add_layer (msg, some stack) e = with_error stack (an_error e) msg
add_layer (msg, none) e = wrap (an_error e) msg

-- The first layer is the outermost.
abbrev pub wrapped : List Layer → GoError → GoError
wrapped [] e = e
wrapped (l ∷ ls) e = add_layer l (wrapped ls e)

abbrev pub messages : List Layer → List Text
messages [] = []
messages ((msg, stack) ∷ ls) = msg ∷ messages ls

-- The layers taken off one by one, from the outside.
abbrev pub unwrapped : List Layer → MaybeError → MaybeError
unwrapped [] e = e
unwrapped (l ∷ ls) e = unwrapped ls (unwrap e)

cause-wrapped : (ls : List Layer) (msg : Text) → cause (wrapped ls (raw msg)) ≡ raw msg
unfolding cause with_error wrap
cause-wrapped [] msg = refl
cause-wrapped ((m, some s) ∷ ls) msg = cause-wrapped ls msg
cause-wrapped ((m, none) ∷ ls) msg = cause-wrapped ls msg

unwrapped-wrapped :
    (ls : List Layer) (e : GoError) → unwrapped ls (an_error (wrapped ls e)) ≡ an_error e
unfolding unwrap with_error wrap
unwrapped-wrapped [] e = refl
unwrapped-wrapped ((m, some s) ∷ ls) e = unwrapped-wrapped ls e
unwrapped-wrapped ((m, none) ∷ ls) e = unwrapped-wrapped ls e

join-cons :
    (m : Text) (ms : List Text) (l : Text)
    → join (m ∷ (ms ++ l ∷ [])) (codes "; ") ≡ m ++ (codes "; " ++ join (ms ++ l ∷ []) (codes "; "))
unfolding join
join-cons m [] l = append_assoc m (codes "; ") l
join-cons m (k ∷ ms) l = append_assoc m (codes "; ") (join (k ∷ (ms ++ l ∷ [])) (codes "; "))

error_text-wrapped :
    (ls : List Layer) (msg : Text)
    → error_text (wrapped ls (raw msg)) ≡ join (messages ls ++ msg ∷ []) (codes "; ")
unfolding error_text with_error wrap
error_text-wrapped [] msg = unfold join in refl
error_text-wrapped ((m, some s) ∷ ls) msg =
    ap (λ t. m ++ (codes "; " ++ t)) (error_text-wrapped ls msg)
    ∙ sym (join-cons m (messages ls) msg)
error_text-wrapped ((m, none) ∷ ls) msg =
    ap (λ t. m ++ (codes "; " ++ t)) (error_text-wrapped ls msg)
    ∙ sym (join-cons m (messages ls) msg)

-- The text and the stack of an error, empty where there is none.
abbrev pub text_of : MaybeError → Text
text_of nil = []
text_of (an_error e) = error_text e

abbrev pub stack_of : MaybeError → Text
stack_of nil = []
stack_of (an_error e) = stack_string e

with_stack-text :
    (stack : Text) (e : GoError) → text_of (with_stack stack (an_error e)) ≡ error_text e
unfolding with_stack error_text
with_stack-text stack e = refl

-- An error of another type that is wrapped by any number of calls of `With` and `Wrap`: `Cause`
-- gives it back, as many calls of `Unwrap` as there were give it back, and the text is that of the
-- messages and then its own, joined by "; ". `WithStack` of it has the same text and the given stack,
-- and nothing else is left of it: `Unwrap` gives nil, and `Cause` gives what `WithStack` returned.
pub wrapped-cause :
    (ls : List Layer) (msg stack : Text)
    → (cause_of (an_error (wrapped ls (raw msg))) ≡ an_error (raw msg))
      × (unwrapped ls (an_error (wrapped ls (raw msg))) ≡ an_error (raw msg))
      × (error_text (wrapped ls (raw msg)) ≡ join (messages ls ++ msg ∷ []) (codes "; "))
      × (text_of (with_stack stack (an_error (wrapped ls (raw msg))))
          ≡ join (messages ls ++ msg ∷ []) (codes "; "))
      × (stack_of (with_stack stack (an_error (wrapped ls (raw msg)))) ≡ stack)
      × (unwrap (with_stack stack (an_error (wrapped ls (raw msg)))) ≡ nil)
      × (cause_of (with_stack stack (an_error (wrapped ls (raw msg))))
          ≡ with_stack stack (an_error (wrapped ls (raw msg))))
unfolding cause_of unwrap with_stack stack_string
wrapped-cause ls msg stack = (
  ap an_error (cause-wrapped ls msg),
  unwrapped-wrapped ls (raw msg),
  error_text-wrapped ls msg,
  with_stack-text stack (wrapped ls (raw msg)) ∙ error_text-wrapped ls msg,
  refl,
  refl,
  refl,
)
