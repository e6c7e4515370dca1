-- ===== src/Client.antt =====
-- crates/blockyard-ublk: the client's side of leases, watermarks, cached metadata and recovery. The
-- metadata service is reached through the trait MetadataClient: what it answers is an argument.
pub mod Results
pub mod LeaseManager
pub mod LeaseSafety
pub mod Watermark
pub mod Races
pub mod Cache
pub mod Lookups
pub mod Refreshed
pub mod Quorum
pub mod QuorumLaws
pub mod Recovery
pub mod RecoveryLaws
pub mod Resolved
pub mod Device
pub mod Chunks
pub mod Reads
pub mod Pipeline
pub mod Acks
pub mod PipelineLaws
pub mod Batcher
pub mod Answers
