-- ===== src/Intent.antt =====
-- lib/source_intent_contract.py: which source of driver modules an explicit intent is authorized to
-- use.
pub mod Contract
pub mod Decision
pub mod Authorized
mod Tests
