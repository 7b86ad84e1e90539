-- ===== src/Lib.antt =====
-- A verification of the core of goutil, a library of Go utilities: the parser and the builder of
-- command lines, the expansion of variables, the operations on slices, the conversions of dynamic
-- values, the cutting and padding of texts, the scanner of configuration texts, the lookups in nested
-- maps, wrapped errors, and the search for files.
--
-- The parts and the code they model:
-- - Prelude and its children: Boolean tests, lists and signed integers over the native numbers, and
--   `Outcome`, a result that may be a panic.
-- - Text: what the program uses of Go's package strings. A string is the list of its code points, which
--   is exact for valid UTF-8; where the program counts bytes, `byte_len` does.
-- - Cmdline (cliutil/cmdline): `LineParser` is the record of the parser; `parse_node`, `parse_nodes` and
--   `finish` are the loop of `LineParser.Parse` with `parseNode` and `appendTempNode`; Cmdline.Builder
--   has `LineBuilder`. The parser calls Varexpr where the environment is to be expanded.
-- - Varexpr (internal/varexpr/varexpr.go): `Parser.Parse` and `parseOne` with the default options. The
--   environment is a parameter, and the regular expression of an expression is written as a matcher.
--   Varexpr.Expressions says what each form of expression stands for.
-- - Arrutil.Search (arrutil/collection.go): `TwowaySearch` and the set operations built on it. The
--   comparer is a parameter, so the comparers that use reflection are not modelled.
-- - Arrutil.Process (arrutil/process.go, strings.go, check.go, list.go): reversing in place, filters,
--   removal of duplicates, lookups and accessors.
-- - Conv (mathutil/convert.go, internal/comfunc/convert.go): `ToIntWith`, `ToInt64With`, `ToUintWith`,
--   `ToUint64With` and `ToStringWith` over `AnyValue`, a data type of the dynamic types that the
--   switches of the source tell apart. `int` has 64 bits. The conversions of floats are parameters.
-- - Strutil (strutil/split.go, padding.go, convbase.go, parts of check.go and convert.go): cutting,
--   splitting, slicing and padding; Strutil.BaseConv has the conversion between bases.
-- - Textscan (strutil/textscan): Textscan.Scanner has `TextScanner`, whose state is a record with the
--   lines that `bufio.Scanner` has still to give; a matcher is a function of the line and the previous
--   token, which it may change, since the scanner and the new token share it. Textscan.KeyValue and
--   Textscan.Comments are the two matchers of kvparse.go, Textscan.More the values and comments of
--   several lines, Textscan.Tokens the tokens, Textscan.Parser the parser. An error of `bufio.Scanner`,
--   which the code never asks for, ends the lines.
-- - Maputil (maputil): Maputil.Values has the dynamic values that the switches tell apart, with a map as
--   the list of its entries; Maputil.Get the lookups by a path, Maputil.Make the construction by keys,
--   Maputil.Merge and Maputil.StringMaps the merges, Maputil.MapData the type `Data`. The iteration
--   over a map follows the list.
-- - Errorx (errorx): Errorx.Chain has `ErrorX` with its previous error, Errorx.Groups the lists of errors.
--   The stack of a call is the text that the runtime prints.
-- - Structs (structs/alias.go): the aliases of names; the checker of the client is a function, where
--   `false` stands for a panic.
-- - Finder (fsutil/finder): Finder.Matchers has the matchers, Finder.Setup and Finder.Setters the
--   configuration and its rules, Finder.Walk the search. The state of a search is the record of the
--   finder with its configuration, whose depth the search changes. A directory is the tree that
--   `os.ReadDir` shows while the search runs, with the directories that cannot be read; the goroutine is
--   run to its end, and the channel is the sequence of the elements sent. `filepath.Join`,
--   `filepath.Abs` and `path.Match` are parameters, and so are the parsers of size and time expressions.
--   Finder.Refinement has the walk of a tree without state, the specification of the search.
--
-- Loops are structural recursion on what they run over. Where the source counts, the count is the fuel:
-- `twoway_loop` gets one round more than there are items, `digits` as many rounds as the number, the
-- loops of `Reverse` and of the padding the number of their rounds. Running out is a panic of
-- `twoway_loop`. `Textscan.Scanner.each` may not end, since a text can be set to be scanned for ever; its
-- fuel is a number greater than the lines left, which is enough without such a text. `encode_loop` of
-- the conversion between bases has its fuel as an argument, since the source does not end in base 1;
-- 64 rounds are enough for a number below 2^64 in a base of two digits or more.
--
-- Not modelled: `SetByKeys` of maps that have the first key, which changes them by reflection; pointers
-- in the slices of a lookup; the memory that a slice of a large index needs; reflection, floats, random
-- numbers, the operating system beyond the trees of Finder, processes, the network, terminals, printing
-- and test helpers.
pub mod Prelude
pub mod Text
pub mod Arrutil
pub mod Cmdline
pub mod Conv
pub mod Errorx
pub mod Finder
pub mod Maputil
pub mod Structs
pub mod Strutil
pub mod Textscan
pub mod Varexpr
