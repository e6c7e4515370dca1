-- ===== src/Handler.antt =====
-- `ClusterBlockHandler` of crates/blockyard-ublk/src/block_handler.rs: what the block device does with a
-- request of the kernel, through the write lease, the pipelines and the reads of the replicas.
pub mod Io
pub mod Writes
pub mod Reads
pub mod Lost
