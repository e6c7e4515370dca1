-- ===== src/Storage/Service/Disk.antt =====
-- crates/blockyard-storage/src/service.rs: the choice of a disk for a write, and what an error of the
-- file system or of a read does to a disk's state.
use blockyard.Common.{
  ℕ-eq, ℕ, zero, suc, ◌⊎◌, inl, inr, Bool, true, false, Option, none, some, List, [], ◌∷◌,
  if◌then◌else◌,
}
use blockyard.Common.Maps.{get}
use blockyard.DiskState.{DiskState, healthy, suspect, degraded, failed}
use blockyard.Storage.Extents.{Slot, FileStep, file_step, StorageError, checksum_mismatch}
use blockyard.Storage.Disks.{
  ManagedDisk, DiskInventory, inventory_allocates, has_bad_regions, transition_state,
}
use blockyard.Storage.Service.{
  ServiceError, unknown_disk, bad_regions, no_allocation, no_eligible_disk, DataNodeService,
}

-- `unwrap_or`.
abbrev pub unwrap_or : Bool → Option Bool → Bool
unwrap_or other none = other
unwrap_or other (some b) = b

-- A preferred disk, by whether it has bad regions.
abbrev pub preferred_disk : ℕ → Bool → ServiceError ⊎ ℕ
preferred_disk disk_id true = inl bad_regions
preferred_disk disk_id false = inr disk_id

abbrev pub preferred_allocates : ℕ → DiskInventory → Option Bool → ServiceError ⊎ ℕ
preferred_allocates disk_id inv none = inl unknown_disk
preferred_allocates disk_id inv (some true) =
    preferred_disk disk_id (unwrap_or false (has_bad_regions disk_id inv))
preferred_allocates disk_id inv (some false) = inl no_allocation

abbrev pub or_keep : Option ℕ → ℕ → Option ℕ
or_keep none disk_id = some disk_id
or_keep (some d) disk_id = some d

-- The first healthy and the first suspect candidate.
abbrev pub candidate : DiskState → ℕ → Option ℕ × Option ℕ → Option ℕ × Option ℕ
candidate healthy disk_id (h, u) = (or_keep h disk_id, u)
candidate suspect disk_id (h, u) = (h, or_keep u disk_id)
candidate _ disk_id (h, u) = (h, u)

abbrev pub may_be_candidate : Option ManagedDisk → ℕ → Option ℕ × Option ℕ → Option ℕ × Option ℕ
may_be_candidate none disk_id c = c
may_be_candidate (some disk) disk_id c = candidate disk.state disk_id c

unfoldable pub candidates :
    DiskInventory → List (ℕ × ManagedDisk) → Option ℕ × Option ℕ → Option ℕ × Option ℕ
candidates inv [] c = c
candidates inv ((disk_id, _) ∷ disks) c =
    if unwrap_or false (inventory_allocates disk_id inv)
    then (if unwrap_or true (has_bad_regions disk_id inv)
        then candidates inv disks c
        else candidates inv disks (may_be_candidate (get disk_id inv.disks) disk_id c))
    else candidates inv disks c

abbrev pub chosen : Option ℕ × Option ℕ → ServiceError ⊎ ℕ
chosen (some d, u) = inr d
chosen (none, some d) = inr d
chosen (none, none) = inl no_eligible_disk

unfoldable pub select_write_disk : Option ℕ → DiskInventory → ServiceError ⊎ ℕ
unfolding candidates
select_write_disk (some disk_id) inv =
    preferred_allocates disk_id inv (inventory_allocates disk_id inv)
select_write_disk none inv = chosen (candidates inv inv.disks (none, none))

-- The phrases that the text of a file system's error contains.
pub record FsError : Type 0 where
  pub no_space_left : Bool
  pub read_only : Bool
  pub structure_needs_cleaning : Bool
  pub input_output_error : Bool

-- A call that fails, after some of its file system calls are done.
pub record Fault : Type 0 where
  pub done : ℕ
  pub error : FsError

-- What the file system fails with during the two calls of a write.
pub record Faults : Type 0 where
  pub staging : Option Fault
  pub committing : Option Fault

unfoldable pub steps_until : ℕ → List FileStep → Slot → Slot
steps_until zero xs s = s
steps_until (suc n) [] s = s
steps_until (suc n) (x ∷ xs) s = steps_until n xs (file_step x s)

unfoldable pub is_fatal : FsError → Bool
is_fatal e =
    if e.no_space_left then true else (if e.read_only then true else e.structure_needs_cleaning)

unfoldable pub handle_xfs_error : ℕ → FsError → DataNodeService → DataNodeService
unfolding is_fatal
handle_xfs_error disk_id e s =
    if is_fatal e
    then record s { inventory = (transition_state disk_id failed s.inventory).0 }
    else (if e.input_output_error
        then record s { inventory = (transition_state disk_id degraded s.inventory).0 }
        else s)

-- An error of the file system degrades the disk; no path of the extent model meets one.
unfoldable pub handle_read_error : ℕ → StorageError → DataNodeService → DataNodeService
handle_read_error disk_id checksum_mismatch s = record s {
  inventory = (transition_state disk_id suspect s.inventory).0;
}
handle_read_error disk_id _ s = s
