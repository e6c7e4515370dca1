-- ===== src/Metadata.antt =====
-- crates/blockyard-raft: the replicated metadata state machine.
pub mod State
pub mod Leases
pub mod LeaseLaws
pub mod Commit
pub mod Apply
pub mod Index
pub mod CommitLaws
pub mod Frame
pub mod Counted
pub mod RaftIds
pub mod Deletion
