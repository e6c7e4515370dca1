-- ===== src/Background.antt =====
-- crates/blockyard-storage/src/background/: the workers that repair, drain, scrub and rebalance disks.
-- `acquire` of the rate limiter is in Storage/Budget; here a worker goes on after its wait.
pub mod Repair
pub mod Drain
pub mod Scrub
pub mod Rebalance
pub mod Priority
pub mod Copies
pub mod Drained
pub mod Scrubbed
pub mod Moves
