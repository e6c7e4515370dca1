-- ===== src/Raft.antt =====
-- crates/blockyard-raft/src/persistent_store.rs: the log and the state machine of a node on its disk.
pub mod Crashes
pub mod Entries
pub mod Log
pub mod LogLaws
pub mod Machine
pub mod Restart
