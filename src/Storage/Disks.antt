-- ===== src/Storage/Disks.antt =====
-- crates/blockyard-storage/src/disk.rs: the inventory of the node's disks. A disk's path, its
-- telemetry and the discovery of disks are not modelled.
use blockyard.Common.{
  ℕ-eq, ℕ, ◌++◌, Bool, true, false, Option, none, some, List, [], ◌∷◌, if◌then◌else◌,
}
use blockyard.Common.Maps.{Map, get, insert}
use blockyard.DiskState.{
  DiskState, healthy, suspect, degraded, draining, allows_allocation, allows_reads,
  validate_transition,
}
use blockyard.Storage.Regions.{BadRegionMap, add_region}

-- `burn_in_running` with the instant at which it has started.
pub data QualificationState : Type 0 where
  pending qualified : QualificationState
  burn_in_running : ℕ → QualificationState

pub record ManagedDisk : Type 0 where
  pub disk_id : ℕ
  pub state : DiskState
  pub qualification : QualificationState
  pub bad_regions : BadRegionMap

abbrev pub new_disk : ℕ → ManagedDisk
new_disk disk_id = record {
  disk_id = disk_id;
  state = healthy;
  qualification = qualified;
  bad_regions = [];
}

abbrev pub new_qualifying : ℕ → ManagedDisk
new_qualifying disk_id = record {
  disk_id = disk_id;
  state = suspect;
  qualification = pending;
  bad_regions = [];
}

pub record DiskInventory : Type 0 where
  pub disks : Map ℕ ManagedDisk
  pub drain_queue : List ℕ

-- The state that a legal transition leaves: a degraded disk goes on to draining.
unfoldable pub settled : DiskState → DiskState
unfolding validate_transition
settled degraded = if validate_transition degraded draining then draining else degraded
settled s = s

unfoldable pub enqueue : DiskState → ℕ → List ℕ → List ℕ
enqueue degraded disk_id queue = queue ++ (disk_id ∷ [])
enqueue _ disk_id queue = queue

unfoldable pub transition_disk :
    Option ManagedDisk → ℕ → DiskState → DiskInventory → DiskInventory × Option DiskState
unfolding settled enqueue
transition_disk none disk_id new_state inv = (inv, none)
transition_disk (some disk) disk_id new_state inv =
    if validate_transition disk.state new_state
    then (
      record {
        disks = insert disk_id (record disk { state = settled new_state }) inv.disks;
        drain_queue = enqueue new_state disk_id inv.drain_queue;
      },
      some disk.state,
    )
    else (inv, none)

-- `transition_state`: the old state, or `none` where it returns an error.
unfoldable pub transition_state : ℕ → DiskState → DiskInventory → DiskInventory × Option DiskState
unfolding transition_disk
transition_state disk_id new_state inv =
    transition_disk (get disk_id inv.disks) disk_id new_state inv

unfoldable pub is_qualified : QualificationState → Bool
is_qualified qualified = true
is_qualified _ = false

unfoldable pub disk_allocates : ManagedDisk → Bool
unfolding is_qualified
disk_allocates disk =
    if allows_allocation disk.state then is_qualified disk.qualification else false

abbrev pub allocates_of : Option ManagedDisk → Option Bool
allocates_of none = none
allocates_of (some disk) = some (disk_allocates disk)

-- `allows_allocation`, and the error of an unknown disk as `none`.
unfoldable pub inventory_allocates : ℕ → DiskInventory → Option Bool
inventory_allocates disk_id inv = allocates_of (get disk_id inv.disks)

abbrev pub reads_of : Option ManagedDisk → Option Bool
reads_of none = none
reads_of (some disk) = some (allows_reads disk.state)

-- `allows_reads`.
unfoldable pub inventory_reads : ℕ → DiskInventory → Option Bool
inventory_reads disk_id inv = reads_of (get disk_id inv.disks)

unfoldable pub any_region : BadRegionMap → Bool
any_region [] = false
any_region (r ∷ rs) = true

abbrev pub regions_of : Option ManagedDisk → Option Bool
regions_of none = none
regions_of (some disk) = some (any_region disk.bad_regions)

unfoldable pub has_bad_regions : ℕ → DiskInventory → Option Bool
has_bad_regions disk_id inv = regions_of (get disk_id inv.disks)

unfoldable pub promoted : DiskState → DiskState
promoted suspect = healthy
promoted s = s

unfoldable pub qualify : ManagedDisk → ManagedDisk
unfolding is_qualified promoted
qualify disk =
    if is_qualified disk.qualification
    then disk
    else record disk { qualification = qualified; state = promoted disk.state }

-- `get_mut`: the disk is changed in place, and an unknown one is an error, `false`.
unfoldable pub update_disk :
    (ManagedDisk → ManagedDisk) → ℕ → Option ManagedDisk → DiskInventory → DiskInventory × Bool
update_disk change disk_id none inv = (inv, false)
update_disk change disk_id (some disk) inv =
    (record inv { disks = insert disk_id (change disk) inv.disks }, true)

unfoldable pub complete_qualification : ℕ → DiskInventory → DiskInventory × Bool
unfolding qualify update_disk
complete_qualification disk_id inv = update_disk qualify disk_id (get disk_id inv.disks) inv

unfoldable pub report_bad_region : ℕ → ℕ → ℕ → DiskInventory → DiskInventory × Bool
unfolding update_disk
report_bad_region disk_id offset length inv =
    update_disk
      (λ (d : ManagedDisk). record d { bad_regions = add_region offset length d.bad_regions })
      disk_id (get disk_id inv.disks) inv

unfoldable pub take_drain_queue : DiskInventory → DiskInventory × List ℕ
take_drain_queue inv = (record inv { drain_queue = [] }, inv.drain_queue)
