-- ===== src/Structs.antt =====
-- structs/alias.go: names with aliases.
pub mod AliasMap
mod AliasLaws
mod Tests
