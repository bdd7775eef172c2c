-- ===== src/Update.antt =====
-- lib/installed_update_transaction.py: the durable activation of an installed driver, and what the
-- boots after it make of it.
pub mod Paths
pub mod State
pub mod Journal
pub mod Files
pub mod Commands
pub mod Rows
pub mod Steps
pub mod Loops
pub mod Sound
pub mod Rollback
pub mod Activation
pub mod Crash
pub mod Schedule
pub mod Health
pub mod Boots
pub mod Acknowledge
mod Tests
mod BootTests
