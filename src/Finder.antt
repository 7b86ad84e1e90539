-- ===== src/Finder.antt =====
-- fsutil/finder: what a search reads, its configuration and its state. A directory is the tree that
-- `os.ReadDir` shows during the search, with the directories that it cannot read; `filepath.Join` and
-- `filepath.Abs` are parameters. The channel is the sequence of the elements sent to it.
pub mod Matchers
pub mod Setup
pub mod Setters
pub mod Walk
pub mod Rules
pub mod RuleList
pub mod Selection
pub mod Refinement
pub mod Depth
pub mod Finding
pub mod Again
mod Tests
use goutil.Prelude.{
  ℕ, ◌/◌, ◌%◌, ◌==◌, Bool, true, false, not, ◌&&◌, ◌||◌, List, [], ◌∷◌, ◌++◌, Option, none, some,
}
use goutil.Prelude.Int.{ℤ, pos}
use goutil.Text.{Text}

-- What `Info` of an entry returns; `none` is an error. The time is in nanoseconds.
pub record FileInfo : Type 0 where
  pub size : ℕ
  pub mod_time : ℤ

mutual
  pub data Entry : Type 0 where
    file : Text → Option FileInfo → Entry
    dir : Text → Option FileInfo → Listing → Entry

  -- What `os.ReadDir` returns.
  pub data Listing : Type 0 where
    unreadable : Listing
    entries : Entries → Listing

  pub data Entries : Type 0 where
    nil : Entries
    cons : Entry → Entries → Entries

-- `Elem`: a found file or directory.
pub record Elem : Type 0 where
  pub path : Text
  pub name : Text
  pub is_dir : Bool
  pub info : Option FileInfo

abbrev pub Matcher : Type 0
Matcher = Elem → Bool

-- A set of two bits.
abbrev pub FindFlag : Type 0
FindFlag = ℕ

abbrev pub flag_file : FindFlag
flag_file = 1

abbrev pub flag_dir : FindFlag
flag_dir = 2

abbrev pub flag_both : FindFlag
flag_both = 3

-- `flags&FlagDir > 0`
abbrev pub finds_dir : FindFlag → Bool
finds_dir flags = flags / 2 % 2 == 1

abbrev pub finds_file : FindFlag → Bool
finds_file flags = flags % 2 == 1

-- `flags == FlagDir`
abbrev pub only_dir : FindFlag → Bool
only_dir flags = flags == flag_dir

pub record Config : Type 0 where
  pub init : Bool
  pub depth : ℤ
  pub scan_dirs : List Text
  pub find_flags : FindFlag
  pub max_depth : ℤ
  pub use_abs_path : Bool
  pub cache_result : Bool
  pub exclude_dot_dir : Bool
  pub exclude_dot_file : Bool
  pub matchers : List Matcher
  pub ex_matchers : List Matcher
  pub dir_matchers : List Matcher
  pub dir_ex_matchers : List Matcher
  pub file_matchers : List Matcher
  pub file_ex_matchers : List Matcher
  pub include_dirs : List Text
  pub include_exts : List Text
  pub include_files : List Text
  pub include_paths : List Text
  pub include_names : List Text
  pub exclude_dirs : List Text
  pub exclude_exts : List Text
  pub exclude_files : List Text
  pub exclude_paths : List Text
  pub exclude_names : List Text

abbrev pub empty_config : Config
empty_config = record {
  init = false;
  depth = pos 0;
  scan_dirs = [];
  find_flags = flag_file;
  max_depth = pos 0;
  use_abs_path = false;
  cache_result = false;
  exclude_dot_dir = false;
  exclude_dot_file = false;
  matchers = [];
  ex_matchers = [];
  dir_matchers = [];
  dir_ex_matchers = [];
  file_matchers = [];
  file_ex_matchers = [];
  include_dirs = [];
  include_exts = [];
  include_files = [];
  include_paths = [];
  include_names = [];
  exclude_dirs = [];
  exclude_exts = [];
  exclude_files = [];
  exclude_paths = [];
  exclude_names = [];
}

unfoldable pub new_empty_config : Config
new_empty_config = empty_config

unfoldable pub new_config : List Text → Config
new_config dirs = record empty_config { scan_dirs = dirs; exclude_dot_dir = true }

pub data FindError : Type 0 where
  abs_error : FindError
  invalid_rule : ℕ → Text → FindError

pub record Finder : Type 0 where
  pub c : Config
  pub err : Option FindError
  pub num : ℕ
  pub ch : List Elem
  pub caches : List Elem

unfoldable pub new_with_config : Config → Finder
new_with_config conf = record { c = conf; err = none; num = 0; ch = []; caches = [] }

unfoldable pub new_finder : List Text → Finder
unfolding new_with_config new_config
new_finder dirs = new_with_config (new_config dirs)

-- `f.c` changed by a function, as the setters do.
abbrev pub on_config : (Config → Config) → Finder → Finder
on_config change f = record f { c = change f.c }
