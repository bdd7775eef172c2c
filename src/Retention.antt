-- ===== src/Retention.antt =====
-- lib/prune_backup_generations.py: the backup directories that a retention policy removes.
pub mod Generations
pub mod Order
pub mod Policy
mod Tests
