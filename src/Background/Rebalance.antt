-- ===== src/Background/Rebalance.antt =====
-- crates/blockyard-storage/src/background/rebalance.rs: the moves of a plan and their execution. The
-- plan starts from the disks that the utilizations, which are floating-point numbers, show to be over
-- and under the average: the former with their extents that can be moved, in the order of the plan.
use blockyard.Common.{ℕ, zero, suc, Option, none, some, List, [], ◌∷◌, ◌++◌}
use blockyard.Background.Repair.{RepairWorker, enqueue, replication}

pub record RebalanceMove : Type 0 where
  pub extent_id : ℕ
  pub version : ℕ
  pub source_disk : ℕ
  pub target_disk : ℕ

abbrev pub move_of : ℕ → ℕ × ℕ → ℕ → RebalanceMove
move_of source (extent_id, version) target = record {
  extent_id = extent_id;
  version = version;
  source_disk = source;
  target_disk = target;
}

abbrev pub first : List ℕ → Option ℕ
first [] = none
first (disk ∷ disks) = some disk

-- The inner loop, with the moves that remain after it.
unfoldable pub move_extents : Option ℕ → ℕ → ℕ → List (ℕ × ℕ) → List RebalanceMove × ℕ
move_extents target source zero extents = ([], zero)
move_extents target source (suc remaining) [] = ([], suc remaining)
move_extents none source (suc remaining) (e ∷ es) = move_extents none source (suc remaining) es
move_extents (some target) source (suc remaining) (e ∷ es) =
    let (moves, left) = move_extents (some target) source remaining es in
    (move_of source e target ∷ moves, left)

-- The outer loop over the disks that are over-utilized.
unfoldable pub plan_moves : List ℕ → ℕ → List (ℕ × List (ℕ × ℕ)) → List RebalanceMove
unfolding move_extents
plan_moves under_utilized zero over_utilized = []
plan_moves under_utilized (suc remaining) [] = []
plan_moves under_utilized (suc remaining) ((source, extents) ∷ rest) =
    let (moves, left) = move_extents (first under_utilized) source (suc remaining) extents in
    moves ++ plan_moves under_utilized left rest

unfoldable pub execute_plan : (ℕ → List ℕ) → List RebalanceMove → RepairWorker → RepairWorker × ℕ
unfolding enqueue
execute_plan healthy_sources_for_extent [] w = (w, 0)
execute_plan healthy_sources_for_extent (mv ∷ moves) w =
    let (w', submitted) = execute_plan healthy_sources_for_extent moves (
      enqueue
        (record {
          extent_id = mv.extent_id;
          version = mv.version;
          target_disk_id = mv.target_disk;
          repair_type = replication (healthy_sources_for_extent mv.extent_id);
          priority = 200;
        })
        w) in
    (w', suc submitted)
