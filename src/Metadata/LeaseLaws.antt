-- ===== src/Metadata/LeaseLaws.antt =====
-- crates/blockyard-raft/src/state_machine.rs: what the lease requests promise.
pub mod Frame
pub mod Fencing
pub mod Exclusion
pub mod Cleanup
pub mod Versions
pub mod History
pub mod Holding
