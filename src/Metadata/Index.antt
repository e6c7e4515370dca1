-- ===== src/Metadata/Index.antt =====
-- crates/blockyard-raft/src/state_machine.rs: the two indices over the extent mappings.
pub mod Tags
pub mod Mappings
pub mod Invariant
pub mod Volumes
pub mod Requests
pub mod Lookups
