-- ===== src/Lib.antt =====
-- Verification library for the Blockyard block store.
--
-- Blockyard keeps volumes as extents on data nodes. A metadata service, replicated by Raft, holds
-- the volumes, the extent mappings, the placement epoch, the write leases and the cluster's nodes
-- and disks. Clients write extents to data nodes and then commit their mappings to the metadata
-- service; a lease with a version fences the writers of a volume.
--
-- Files.
-- - Common and its children: tests on numbers, 64-bit sums, lists, keys, and maps as association
--   lists (BTreeMap and HashMap by their observable operations; the order of iteration is left out).
-- - Lease, Protection, DiskState: crates/blockyard-common/src/lease.rs, protection.rs, disk_state.rs.
-- - Metadata: crates/blockyard-raft/src/state_machine.rs, request.rs, response.rs. Metadata/State has
--   the data and the queries, Leases the lease requests (apply_lease_request, validate_lease,
--   cleanup_expired_leases), Commit the extent mappings (CommitExtentMapping and its batch), Apply the
--   other requests, apply_request and the replay of a log. Their proofs are in Index (the indices and
--   the invariant), CommitLaws, LeaseLaws, RaftIds, Deletion, with Frame and Counted as helpers.
-- - Raft: crates/blockyard-raft/src/persistent_store.rs. Raft/Log has the log on disk and Machine the
--   state machine on disk, with restarts and snapshots; LogLaws, Restart and Crashes have the proofs. The
--   JSON of the state machine is an argument, with its round trip as the hypothesis ReadsBack of Crashes.
-- - Client: crates/blockyard-ublk/src. Client/LeaseManager has the lease manager by the responses it
--   gets and the loop of its renewal task over wakes (lease_manager.rs), and LeaseSafety its proofs;
--   Watermark has the watermark alone and under threads that load and exchange (watermark.rs), and
--   Races its proofs; Cache has metadata_cache.rs, with proofs in Lookups and Refreshed; Quorum has
--   quorum_health.rs, and QuorumLaws its proofs; Recovery has freshness.rs, stale_epoch.rs,
--   ambiguous_write.rs and crash_recovery.rs, with proofs in RecoveryLaws and Resolved. The client
--   reaches the metadata service through the trait MetadataClient: its answers are arguments, and in
--   LeaseSafety.acquire_through they are those of the modelled service.
--   Device has block_handler.rs and ublk.rs (how a write is split, what a block reads), with proofs in
--   Chunks and Reads; Pipeline has write_pipeline.rs with select_nodes of
--   crates/blockyard-common/src/placement.rs, and Acks and PipelineLaws its proofs; Batcher has
--   write_batcher.rs, with the metadata service as a function on a state of its own, and Answers its
--   proofs.
-- - Erasure: crates/blockyard-client/src/ec.rs, crates/blockyard-ublk/src/ec_write_pipeline.rs and
--   read_ec_block_data of block_handler.rs. Erasure/Shards and Codec have ErasureCodec, with proofs in
--   Bytes, Joined and RoundTrip; Stripe has encode_data and the read of a block from fragments, with
--   proofs in StripeRead; Pipeline has the write pipeline, and Unaligned what its extent numbers come to.
-- - Handler: crates/blockyard-ublk/src/block_handler.rs. Handler/Io has handle_io with its operations,
--   over the lease manager, the device's split, both pipelines and the reads; Writes and Reads have the
--   proofs, and Lost a block that a data node does not give back.
-- - Background: crates/blockyard-storage/src/background. Background/Repair has repair.rs, with the traits
--   of its readers and writers as a record of operations on a state of the disks, and Priority and Copies
--   its proofs; Drain and Drained have drain.rs, Scrub and Scrubbed scrub.rs, Rebalance and Moves the
--   moves of rebalance.rs.
-- - Storage: crates/blockyard-storage/src. Storage/Extents has the extent files and the index
--   (extent.rs), with proofs in Crashes and Recovered; Disks the inventory (disk.rs); Regions the bad
--   regions (region.rs); Acl the permissions of crates/blockyard-common/src/auth.rs; Service the data
--   node's service (service.rs): Service/Disk the choice of a disk and the errors of the file system,
--   Write handle_write, Read handle_read, with proofs in Choice, Accepted, ReadBack, Repeated and
--   Fencing; Placement the placement of volumes (placement.rs), with proofs in Sorting, Spread,
--   LiveNodes and Placed; Tokens the rate limiter (background/rate_limit.rs) for a caller that meets no
--   other, with proofs in Budget and Waiting, and Refills its atomics under any interleaving.
-- - Auth: crates/blockyard-common/src/auth.rs. Auth/Tokens has SharedSecretAuth, whose MAC and whose
--   texts of ids are arguments, and TokenLaws its proofs. The two times that are signed after the
--   identity have 8 bytes each.
-- - Gossip: crates/blockyard-gossip/src. Gossip/Members has the member table (member.rs), Swim the
--   protocol (swim.rs, protocol.rs), with proofs in Convergence and Refutation.
-- - Tests: the theorems at concrete inputs.
--
-- Conventions. An id is the number of its UUID, and its rendering to text, which keys most maps, is
-- the parameter to_string. A state is a record, and an operation returns the next state beside its
-- response. A panic is the outcome none, or an outcome of its own. Times and counters are u64: sums
-- wrap as in a release build, except where the source saturates. An error keeps its kind in place
-- of its formatted text. Recursion is structural but for three loops on fuel: acquire of the rate
-- limiter, which waits, needs 101 * count + 101 tries (Storage/Waiting), the split of a write one more
-- than its blocks (Client/Chunks, Handler/Writes), and process_all of the repair worker one more than
-- its queue (Background/Copies). Logs are shorter than 2^64 requests where a counter
-- must not wrap.
--
-- What comes from outside is an argument: the checksum, the hash that places an extent, the order
-- in which the operation log lists its keys, the calls of the file system that fail, the answers of
-- the replicas in the order in which they end, the Reed-Solomon code of the crate
-- reed_solomon_erasure, with what it documents as the hypothesis Sound of Erasure/RoundTrip, and the
-- time.
--
-- Not modelled: the Raft store in memory (crates/blockyard-raft/src/store.rs), which does as the one on
-- disk; the durable copy of the operation log, the discovery and the telemetry of disks; the choice
-- of the disks that a rebalance moves from and to, which compares floating-point numbers; the
-- coalescing buffer and partial_stripe_write, which nothing calls; the read pipelines of
-- blockyard-client, which the block device does not use; Raft itself, sockets, the kernel's block device, metrics and the
-- command line. The locks of the data node make each operation one
-- step, and so are the operations of the rate limiter outside Storage/Refills.
pub mod Auth
pub mod Common
pub mod Lease
pub mod Protection
pub mod DiskState
pub mod Metadata
pub mod Raft
pub mod Client
pub mod Gossip
pub mod Storage
pub mod Background
pub mod Erasure
pub mod Handler
mod Tests
