-- ===== src/Cmdline/Tests.antt =====
-- The theorems on cmdline at small lines.
use goutil.Prelude.{◌≡◌, refl, List, [], ◌∷◌, map}
use goutil.Prelude.Outcome.{done}
use goutil.Arrutil.Search.{index}
use goutil.Text.{
  Text, codes, is_space, index_char, contains_char, split_char, join_char, trim_space,
}
use goutil.Text.Laws.{Every-of_every}
use goutil.Cmdline.{parse_line}
use goutil.Cmdline.Builder.{line_build}
use goutil.Cmdline.Nodes.{word_char, IsWord}
use goutil.Cmdline.RoundTrip.{parse_line-line_build}
use goutil.Cmdline.Written.{AllArgs, arg_text}

abbrev no_env : Text → Text
no_env name = []

abbrev app : Text
app = codes "app"

abbrev args : List (List Text)
args = (codes "-m" ∷ []) ∷ (codes "one" ∷ codes "two" ∷ []) ∷ [] ∷ []

app-IsWord : IsWord app
unfolding is_space
app-IsWord = (Every-of_every word_char app refl, cc)

args-AllArgs : AllArgs args
unfolding is_space
args-AllArgs = (
  ((Every-of_every word_char (codes "-m") refl, cc), tt),
  (
    (
      (Every-of_every word_char (codes "one") refl, cc),
      ((Every-of_every word_char (codes "two") refl, cc), tt),
    ),
    (tt, tt),
  ),
)

line_build-app : line_build app (map arg_text args) ≡ codes "app -m \"one two\" \"\""
unfolding line_build index_char contains_char join_char
line_build-app = refl

parse_line-app :
    parse_line no_env (codes "app --f='a b' \"c  d\" e")
    ≡ done (codes "app" ∷ codes "--f='a b'" ∷ codes "c d" ∷ codes "e" ∷ [])
unfolding parse_line trim_space is_space contains_char split_char index
parse_line-app = refl

parse_line-line_build_example :
    parse_line no_env (line_build app (map arg_text args)) ≡ done (app ∷ map arg_text args)
parse_line-line_build_example = parse_line-line_build no_env app args app-IsWord args-AllArgs
