-- ===== src/Maputil.antt =====
-- maputil: values of dynamic type, lookups by a path of keys, construction and merging of maps.
pub mod Values
pub mod Get
pub mod Make
pub mod Merge
pub mod StringMaps
pub mod MapData
pub mod GetSafety
pub mod Nesting
pub mod Brackets
pub mod MakeGet
pub mod MergeLookup
mod MergeNested
mod MakePanics
pub mod DataPaths
mod Tests
