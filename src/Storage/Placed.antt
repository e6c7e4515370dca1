-- ===== src/Storage/Placed.antt =====
-- Where the extents of a volume go (crates/blockyard-storage/src/placement.rs).
use blockyard.Common.{ℕ, ◌≡◌, ◌≢◌, ◌≤◌, ◌<◌, ◌+◌, ◌%◌, ◌⊎◌, List, [], ◌∷◌, length, All}
use blockyard.Protection.{ProtectionPolicy, replicated, erasure_coded}
use blockyard.Storage.Placement.{
  PlacementDisk, ExtentPlacement, PlacementResult, placed, refused, no_healthy_disks,
  insufficient_nodes, NodeDisks, ids, policy_nodes,
}
use blockyard.Storage.Spread.{Takes}
use blockyard.Storage.LiveNodes.{AreLive}

-- A disk of another node.
abbrev Away : ℕ → PlacementDisk → Type 0
Away k d = d.node_id ≢ k

-- Disks that take new extents, no two of them of one node.
abbrev pub Spread : List PlacementDisk → Type 0
Spread [] = Unit
Spread (d ∷ ds) = Takes d × All (Away d.node_id) ds × Spread ds

module _ (i : ℕ) (nodes : List NodeDisks) where
  -- The place of the `j`-th disk's node.
  abbrev place : ℕ → ℕ
  place j = (i % length nodes + j) % length nodes

abbrev placed_disks : ProtectionPolicy → ExtentPlacement → List ℕ
placed_disks (replicated replicas) e = e.primary_disk ∷ e.replica_disks
placed_disks (erasure_coded data_chunks parity_chunks) e = e.fragment_disks

-- An extent placed on disks that take new extents, as many as asked for, on as many nodes.
abbrev pub OnSpread : ProtectionPolicy → ℕ → ExtentPlacement → Type 0
OnSpread p required e =
    (ds : List PlacementDisk) × (placed_disks p e ≡ ids ds) × (length ds ≡ required) × Spread ds

-- As many extents as asked for, each of them spread.
abbrev pub AllSpread : ProtectionPolicy → ℕ → ℕ → PlacementResult → Type 0
AllSpread p required count r =
    (es : List ExtentPlacement) × (r ≡ placed es)
    × (length es ≡ count)
    × All (OnSpread p required) es

-- What becomes of a volume, by the disks that take new extents and the listed nodes that have one.
abbrev pub Verdict : ProtectionPolicy → ℕ → List PlacementDisk → List ℕ → PlacementResult → Type 0
Verdict p count ds nodes r =
    ((ds ≡ []) × (r ≡ refused no_healthy_disks))
    ⊎ ((live : List ℕ) × AreLive ds nodes live
        × (((length live < policy_nodes p)
              × (r ≡ refused (insufficient_nodes (policy_nodes p) (length live))))
            ⊎ ((policy_nodes p ≤ length live) × AllSpread p (policy_nodes p) count r)))
