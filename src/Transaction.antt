-- ===== src/Transaction.antt =====
-- lib/recovery_transaction.py: the one recovery transaction of the computer, a document that a
-- command line tool checks, moves through its phases and removes.
pub mod Document
pub mod Commands
pub mod Validity
pub mod Readback
pub mod Steps
pub mod Lifecycle
pub mod Sessions
pub mod Success
pub mod Routes
mod Tests
