-- ===== src/Progress.antt =====
-- lib/progress_semantics.py: how a progress record is shown to its consumers.
pub mod Records
pub mod Bounds
pub mod Shares
mod Tests
