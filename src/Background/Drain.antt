-- ===== src/Background/Drain.antt =====
-- crates/blockyard-storage/src/background/drain.rs. What meets a drain from outside is the record
-- `DrainSurroundings`, by the number of entries before: the answers of the inventory, whether the rate
-- limiter ever grants the tokens of a relocation, and what others (the repair worker, which takes
-- requests and completes repairs, and whoever enqueues some) do to the shared worker while the drain
-- waits for its tokens and between two relocations.
use blockyard.Common.{
  ℕ, suc, Bool, true, false, Option, none, some, List, [], ◌∷◌, if◌then◌else◌, nat_eq, length, ◌&&◌,
}
use blockyard.Background.Repair.{RepairRequest, RepairWorker, enqueue, replication}

pub record DrainExtentEntry : Type 0 where
  pub extent_id : ℕ
  pub version : ℕ
  pub healthy_sources : List ℕ

pub record DrainProgress : Type 0 where
  pub disk_id : ℕ
  pub total_extents : ℕ
  pub relocated : ℕ
  pub failed : ℕ
  pub complete : Bool

abbrev pub request_for : DrainExtentEntry → ℕ → RepairRequest
request_for entry target = record {
  extent_id = entry.extent_id;
  version = entry.version;
  target_disk_id = target;
  repair_type = replication entry.healthy_sources;
  priority = 100;
}

pub record DrainSurroundings : Type 0 where
  pub is_draining : ℕ → Bool
  pub grants : ℕ → Bool
  pub during_wait : ℕ → RepairWorker → RepairWorker
  pub select_target_disk : ℕ → Option ℕ
  pub during_delay : ℕ → RepairWorker → RepairWorker
  pub transition_to_removed : Bool

module _ (env : DrainSurroundings) where
  -- The rest of a round, by the target. Only a relocation is followed by a delay.
  unfoldable pub relocate :
      ℕ → DrainExtentEntry → Option ℕ → RepairWorker × DrainProgress → RepairWorker × DrainProgress
  unfolding enqueue
  relocate index entry none (w, p) = (w, record p { failed = suc p.failed })
  relocate index entry (some target) (w, p) = (
    env.during_delay index (enqueue (request_for entry target) w),
    record p { relocated = suc p.relocated },
  )

  -- The loop, or none where it waits for its tokens for ever.
  unfoldable pub drain_loop :
      ℕ
      → List DrainExtentEntry
      → RepairWorker × DrainProgress
      → Option (RepairWorker × DrainProgress)
  unfolding relocate
  drain_loop index [] wp = some wp
  drain_loop index (entry ∷ rest) (w, p) =
      let next =
        drain_loop (suc index) rest
          (relocate index entry (env.select_target_disk index) (env.during_wait index w, p)) in
      if env.is_draining index then (if env.grants index then next else none) else some (w, p)

  unfoldable pub finish_drain : DrainProgress → DrainProgress
  finish_drain p =
      if nat_eq p.relocated p.total_extents && nat_eq p.failed 0
      then (if env.transition_to_removed then record p { complete = true } else p)
      else p

  abbrev pub on_drained :
      Option (RepairWorker × DrainProgress) → Option (RepairWorker × DrainProgress)
  on_drained none = none
  on_drained (some (w, p)) = some (w, finish_drain p)

  unfoldable pub drain_disk :
      List DrainExtentEntry → ℕ → RepairWorker → Option (RepairWorker × DrainProgress)
  unfolding drain_loop finish_drain
  drain_disk extents disk_id w = on_drained (
      drain_loop 0 extents (
        w,
        record {
          disk_id = disk_id;
          total_extents = length extents;
          relocated = 0;
          failed = 0;
          complete = false;
        },
      ))
