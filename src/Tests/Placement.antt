-- ===== src/Tests/Placement.antt =====
-- The theorem about placement on three nodes of one disk each.
use blockyard.Common.{ℕ, [], ◌∷◌, List}
use blockyard.DiskState.{DiskState, healthy, failed}
use blockyard.Storage.Placement.{PlacementDisk}

abbrev disk : ℕ → ℕ → DiskState → PlacementDisk
disk id node state = record {
  disk_id = id;
  node_id = node;
  capacity_bytes = 100;
  used_bytes = id;
  state = state;
}

-- The disk of node 6 has failed.
abbrev disks : List PlacementDisk
disks = disk 1 4 healthy ∷ disk 2 5 healthy ∷ disk 3 6 failed ∷ disk 8 7 healthy ∷ []
