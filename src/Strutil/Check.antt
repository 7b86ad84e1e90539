-- ===== src/Strutil/Check.antt =====
-- strutil/check.go: tests on texts.
use goutil.Prelude.{Bool, true, false, List, [], ◌∷◌, if◌then◌else◌}
use goutil.Text.{Text, has_prefix, has_suffix, contains_text}

unfoldable pub has_one_sub : Text → List Text → Bool
has_one_sub s [] = false
has_one_sub s (sub ∷ subs) =
    let rest = has_one_sub s subs in if contains_text s sub then true else rest

unfoldable pub has_all_subs : Text → List Text → Bool
has_all_subs s [] = true
has_all_subs s (sub ∷ subs) =
    let rest = has_all_subs s subs in if contains_text s sub then rest else false

unfoldable pub has_one_prefix : Text → List Text → Bool
has_one_prefix s [] = false
has_one_prefix s (prefix ∷ prefixes) =
    let rest = has_one_prefix s prefixes in if has_prefix s prefix then true else rest

unfoldable pub has_one_suffix : Text → List Text → Bool
has_one_suffix s [] = false
has_one_suffix s (suffix ∷ suffixes) =
    let rest = has_one_suffix s suffixes in if has_suffix s suffix then true else rest
