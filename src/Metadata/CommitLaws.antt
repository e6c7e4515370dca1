-- ===== src/Metadata/CommitLaws.antt =====
-- crates/blockyard-raft/src/state_machine.rs: what a commit of extent mappings promises.
pub mod Outcomes
pub mod Effects
pub mod Batches
pub mod Epochs
