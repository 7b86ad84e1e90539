-- ===== src/Errorx.antt =====
-- errorx: errors with a message, a previous error and a call stack, and lists of errors.
pub mod Chain
pub mod Groups
pub mod Wrapping
mod Tests
