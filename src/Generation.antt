-- ===== src/Generation.antt =====
-- lib/userspace_lock_generation_contract.py: the documents that describe one reviewed generation of
-- userspace locks, and the authorization of its activation.
pub mod Fields
pub mod Records
pub mod Documents
pub mod Activation
pub mod Lineage
pub mod Locks
pub mod Samples
mod Tests
