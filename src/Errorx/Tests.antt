-- ===== src/Errorx/Tests.antt =====
-- The theorem on wrapped errors at two layers.
use goutil.Prelude.{◌≡◌, List, [], ◌∷◌, ◌++◌, none, some}
use goutil.Text.{codes}
use goutil.Strutil.Cut.{join}
use goutil.Errorx.Chain.{raw, nil, an_error, cause_of, unwrap, error_text, with_stack}
use goutil.Errorx.Wrapping.{Layer, wrapped, messages, unwrapped, text_of, stack_of, wrapped-cause}

abbrev two_layers : List Layer
two_layers = (codes "load", some (codes "main.go:3")) ∷ (codes "open", none) ∷ []

wrapped-cause_example :
    (cause_of (an_error (wrapped two_layers (raw (codes "no file"))))
      ≡ an_error (raw (codes "no file")))
    × (unwrapped two_layers (an_error (wrapped two_layers (raw (codes "no file"))))
        ≡ an_error (raw (codes "no file")))
    × (error_text (wrapped two_layers (raw (codes "no file")))
        ≡ join (messages two_layers ++ codes "no file" ∷ []) (codes "; "))
    × (text_of
          (with_stack (codes "main.go:9") (an_error (wrapped two_layers (raw (codes "no file")))))
        ≡ join (messages two_layers ++ codes "no file" ∷ []) (codes "; "))
    × (stack_of
          (with_stack (codes "main.go:9") (an_error (wrapped two_layers (raw (codes "no file")))))
        ≡ codes "main.go:9")
    × (unwrap
          (with_stack (codes "main.go:9") (an_error (wrapped two_layers (raw (codes "no file")))))
        ≡ nil)
    × (cause_of
          (with_stack (codes "main.go:9") (an_error (wrapped two_layers (raw (codes "no file")))))
        ≡ with_stack (codes "main.go:9") (an_error (wrapped two_layers (raw (codes "no file")))))
wrapped-cause_example = wrapped-cause two_layers (codes "no file") (codes "main.go:9")
