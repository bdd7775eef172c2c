-- ===== src/Device.antt =====
-- lib/device_generation_lifecycle.py and lib/device_generation_contract.py: which generation of
-- userspace locks a device has activated, in a store that a loss of power may interrupt.
pub mod Contract
pub mod Store
pub mod Register
pub mod Pending
pub mod Health
pub mod Cache
pub mod Commands
pub mod Results
pub mod Readback
pub mod Replies
pub mod Markers
pub mod Refinement
pub mod LockSteps
pub mod Promotion
pub mod Transition
pub mod Recovery
pub mod Lock
pub mod Uncached
pub mod Retained
pub mod Pruning
pub mod Validity
pub mod Commit
pub mod Activation
pub mod Schedule
pub mod Samples
mod Tests
