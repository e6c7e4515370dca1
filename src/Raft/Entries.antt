-- ===== src/Raft/Entries.antt =====
-- The entries of the Raft log, whose types crates/blockyard-raft/src/persistent_store.rs takes from
-- openraft. A membership is a number.
use blockyard.Common.{ℕ, Option}
use blockyard.Metadata.State.{MetadataRequest}

pub record LogId : Type 0 where
  pub term : ℕ
  pub node_id : ℕ
  pub index : ℕ

pub data EntryPayload : Type 0 where
  blank : EntryPayload
  normal : MetadataRequest → EntryPayload
  membership : ℕ → EntryPayload

pub record Entry : Type 0 where
  pub log_id : LogId
  pub payload : EntryPayload

pub record StoredMembership : Type 0 where
  pub log_id : Option LogId
  pub membership : ℕ
