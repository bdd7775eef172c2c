-- ===== src/Release.antt =====
-- lib/release_operation.py: what to do about one immutable release that may be there already.
pub mod Operation
pub mod Comparison
pub mod Decisions
mod Tests
