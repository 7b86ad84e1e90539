-- ===== src/Strutil.antt =====
-- strutil/split.go, padding.go, convbase.go and parts of check.go and convert.go: cutting, padding
-- and conversion of texts. What slices out of range panics.
pub mod Cut
pub mod Padding
pub mod Convert
pub mod Check
pub mod BaseConv
mod BaseDigits
mod BaseLaws
pub mod CutLaws
pub mod PadLaws
pub mod CutSearch
mod Tests
