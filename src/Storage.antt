-- ===== src/Storage.antt =====
-- crates/blockyard-storage: the data node's extents, disks, service and background budget.
pub mod Extents
pub mod Crashes
pub mod Recovered
pub mod Tokens
pub mod Budget
pub mod Refills
pub mod Waiting
pub mod Regions
pub mod Disks
pub mod Acl
pub mod Service
pub mod Placement
pub mod Sorting
pub mod Spread
pub mod LiveNodes
pub mod Placed
