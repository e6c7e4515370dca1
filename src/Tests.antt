-- ===== src/Tests.antt =====
-- The theorems at concrete inputs, and runs of the model.
mod Demo
mod Indices
mod Commits
mod Lease
mod Client
mod Recovery
mod Gossip
mod Extents
mod Budget
mod Service
mod Device
mod Placement
mod Background
mod Batcher
mod Erasure
mod Handler
mod Raft
mod Auth
