-- ===== src/Errorx/Chain.antt =====
-- errorx/errorx.go and util.go. What the runtime prints of a call stack is a text; an error of
-- another type has its message and neither `Cause` nor `Unwrap`.
use goutil.Prelude.{Bool, true, false, [], ◌++◌, Option, none, some, if◌then◌else◌}
use goutil.Prelude.Outcome.{Outcome, done, panics}
use goutil.Text.{Text, codes}
use goutil.Strutil.Cut.{is_empty}

-- `raw` is an error of another type; `error_x` has a message, a stack and a previous error.
mutual
  pub data GoError : Type 0 where
    raw : Text → GoError
    error_x : Text → Option Text → MaybeError → GoError

  pub data MaybeError : Type 0 where
    nil : MaybeError
    an_error : GoError → MaybeError

-- `ErrorX.Cause`, and the function `Cause` on an error.
unfoldable pub cause : GoError → GoError
cause (raw msg) = raw msg
cause (error_x msg stack nil) = error_x msg stack nil
cause (error_x msg stack (an_error prev)) = cause prev

unfoldable pub cause_of : MaybeError → MaybeError
unfolding cause
cause_of nil = nil
cause_of (an_error e) = an_error (cause e)

unfoldable pub unwrap : MaybeError → MaybeError
unwrap nil = nil
unwrap (an_error (raw msg)) = nil
unwrap (an_error (error_x msg stack prev)) = prev

-- `Error` of an error: the messages from the outside in, by `writeMsgTo`.
unfoldable pub error_text : GoError → Text
error_text (raw msg) = msg
error_text (error_x msg stack nil) = msg
error_text (error_x msg stack (an_error prev)) = msg ++ (codes "; " ++ error_text prev)

abbrev pub stack_text : Option Text → Text
stack_text none = []
stack_text (some s) = s

-- The message with the stack, and nothing where there is no message.
abbrev pub message_with_stack : Text → Option Text → Text
message_with_stack msg stack = if is_empty msg then [] else msg ++ stack_text stack

-- `WriteTo`, `GoString` and `String`
unfoldable pub write_to : GoError → Text
write_to (raw msg) = msg
write_to (error_x msg stack nil) = message_with_stack msg stack
write_to (error_x msg stack (an_error prev)) =
    message_with_stack msg stack ++ (codes "\nPrevious: " ++ write_to prev)

unfoldable pub stack_string : GoError → Text
stack_string (raw msg) = []
stack_string (error_x msg stack prev) = stack_text stack

unfoldable pub is_error_x : MaybeError → Bool
is_error_x (an_error (error_x msg stack prev)) = true
is_error_x _ = false

unfoldable pub must_ex : MaybeError → Outcome GoError
must_ex (an_error (error_x msg stack prev)) = done (error_x msg stack prev)
must_ex _ = panics

-- The constructors are given the stack of their caller.
unfoldable pub new_error : Text → Text → GoError
new_error stack msg = error_x msg (some stack) nil

unfoldable pub with_error : Text → MaybeError → Text → GoError
with_error stack err msg = error_x msg (some stack) err

-- `WithStack`, `Traced` and `Stacked`
unfoldable pub with_stack : Text → MaybeError → MaybeError
unfolding error_text
with_stack stack nil = nil
with_stack stack (an_error e) = an_error (error_x (error_text e) (some stack) nil)

unfoldable pub wrap : MaybeError → Text → GoError
wrap nil msg = raw msg
wrap (an_error e) msg = error_x msg none (an_error e)
