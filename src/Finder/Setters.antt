-- ===== src/Finder/Setters.antt =====
-- fsutil/finder/config.go: the methods of the finder that change its configuration.
use goutil.Prelude.{Bool, true, List, [], ◌∷◌, ◌++◌}
use goutil.Prelude.Int.{ℤ}
use goutil.Text.{Text}
use goutil.Finder.{Matcher, FindFlag, Finder, on_config}
use goutil.Finder.Setup.{to_flag}

-- A variadic flag: its first value, or true.
abbrev pub enabled : List Bool → Bool
enabled [] = true
enabled (b ∷ bs) = b

unfoldable pub add_scan_dirs : List Text → Finder → Finder
add_scan_dirs dir_paths f = on_config (λ c. record c { scan_dirs = c.scan_dirs ++ dir_paths }) f

unfoldable pub cache_result : List Bool → Finder → Finder
cache_result enable f = on_config (λ c. record c { cache_result = enabled enable }) f

unfoldable pub with_flags : FindFlag → Finder → Finder
with_flags flags f = on_config (λ c. record c { find_flags = flags }) f

unfoldable pub with_str_flag : Text → Finder → Finder
with_str_flag s f = on_config (λ c. record c { find_flags = to_flag s }) f

unfoldable pub with_use_abs_path : List Bool → Finder → Finder
with_use_abs_path enable f = on_config (λ c. record c { use_abs_path = enabled enable }) f

unfoldable pub with_max_depth : ℤ → Finder → Finder
with_max_depth i f = on_config (λ c. record c { max_depth = i }) f

unfoldable pub include_ext : List Text → Finder → Finder
include_ext exts f = on_config (λ c. record c { include_exts = c.include_exts ++ exts }) f

unfoldable pub exclude_ext : List Text → Finder → Finder
exclude_ext exts f = on_config (λ c. record c { exclude_exts = c.exclude_exts ++ exts }) f

unfoldable pub include_name : List Text → Finder → Finder
include_name names f = on_config (λ c. record c { include_names = c.include_names ++ names }) f

unfoldable pub without_names : List Text → Finder → Finder
without_names names f = on_config (λ c. record c { exclude_names = c.exclude_names ++ names }) f

unfoldable pub include_file : List Text → Finder → Finder
include_file files f = on_config (λ c. record c { include_files = c.include_files ++ files }) f

unfoldable pub exclude_file : List Text → Finder → Finder
exclude_file files f = on_config (λ c. record c { exclude_files = c.exclude_files ++ files }) f

unfoldable pub include_path : List Text → Finder → Finder
include_path paths f = on_config (λ c. record c { include_paths = c.include_paths ++ paths }) f

unfoldable pub exclude_path : List Text → Finder → Finder
exclude_path paths f = on_config (λ c. record c { exclude_paths = c.exclude_paths ++ paths }) f

unfoldable pub include_dir : List Text → Finder → Finder
include_dir dirs f = on_config (λ c. record c { include_dirs = c.include_dirs ++ dirs }) f

unfoldable pub exclude_dir : List Text → Finder → Finder
exclude_dir dirs f = on_config (λ c. record c { exclude_dirs = c.exclude_dirs ++ dirs }) f

unfoldable pub exclude_dot_dir : List Bool → Finder → Finder
exclude_dot_dir exclude f = on_config (λ c. record c { exclude_dot_dir = enabled exclude }) f

unfoldable pub exclude_dot_file : List Bool → Finder → Finder
exclude_dot_file exclude f = on_config (λ c. record c { exclude_dot_file = enabled exclude }) f

unfoldable pub includes : List Matcher → Finder → Finder
includes fls f = on_config (λ c. record c { matchers = c.matchers ++ fls }) f

unfoldable pub excludes : List Matcher → Finder → Finder
excludes fls f = on_config (λ c. record c { ex_matchers = c.ex_matchers ++ fls }) f

unfoldable pub match_files : List Matcher → Finder → Finder
match_files fls f = on_config (λ c. record c { file_matchers = c.file_matchers ++ fls }) f

unfoldable pub not_files : List Matcher → Finder → Finder
not_files fls f = on_config (λ c. record c { file_ex_matchers = c.file_ex_matchers ++ fls }) f

unfoldable pub match_dirs : List Matcher → Finder → Finder
match_dirs fls f = on_config (λ c. record c { dir_matchers = c.dir_matchers ++ fls }) f

unfoldable pub not_dirs : List Matcher → Finder → Finder
not_dirs fls f = on_config (λ c. record c { dir_ex_matchers = c.dir_ex_matchers ++ fls }) f
