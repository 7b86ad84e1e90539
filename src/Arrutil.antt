-- ===== src/Arrutil.antt =====
-- The package arrutil: searching and combining slices.
pub mod Search
pub mod Process
mod Tests
