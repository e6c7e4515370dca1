-- ===== src/Storage/Service.antt =====
-- crates/blockyard-storage/src/service.rs: the data node's service. A message keeps its kind in place
-- of its text. The durable copy of the operation log, which a run only appends to, is not modelled.
-- The order in which `keys` lists the log, which is not documented, is the argument `iteration`; the
-- identifier that a failed write without a target disk is recorded under is the argument
-- `generated`, and what the file system fails with is the argument `faults`.
use blockyard.Common.{
  ℕ-eq, ℕ, zero, suc, ◌+◌, ◌-◌, ◌/◌, String, Bool, true, false, Option, none, some, is_some, List,
  [], ◌∷◌, if◌then◌else◌, ltb, leb, nat_eq, length,
}
use blockyard.Common.Maps.{Map, get, insert, remove}
use blockyard.DiskState.{DiskState, failed, degraded, suspect}
use blockyard.Storage.Extents.{
  Slot, empty_slot, ExtentMeta, LocalExtentEntry, ExtentIndex, insert_entry, default, entry_of,
  FileStep, file_step, file_steps, stage_steps, commit_steps,
}
use blockyard.Storage.Disks.{DiskInventory, transition_state}
use blockyard.Storage.Acl.{VolumeAcl}
pub mod Disk
pub mod Write
pub mod Read
pub mod Choice
pub mod Accepted
pub mod ReadBack
pub mod Repeated
pub mod Fencing

pub data ServiceError : Type 0 where
  access_denied previous_failed stale_epoch no_lease_version other_session stale_lease :
      ServiceError
  unknown_disk bad_regions no_allocation no_eligible_disk : ServiceError
  payload_mismatch no_store staging_failed commit_failed : ServiceError
  extent_not_found version_mismatch disk_not_readable read_failed checksum_mismatch : ServiceError

pub record OperationRecord : Type 0 where
  pub operation_id : ℕ
  pub extent_id : ℕ
  pub extent_version : ℕ
  pub disk_id : ℕ
  pub checksum : Option ℕ
  pub success : Bool

pub record CachedLease : Type 0 where
  pub session_id : ℕ
  pub lease_version : ℕ

pub record WriteExtentRequest : Type 0 where
  pub operation_id : ℕ
  pub session_id : ℕ
  pub volume_id : ℕ
  pub extent_id : ℕ
  pub extent_version : ℕ
  pub epoch : ℕ
  pub target_disk_id : Option ℕ
  pub checksum : ℕ
  pub lease_version : Option ℕ

-- `checksum` is `none` for the empty text.
pub record WriteExtentResponse : Type 0 where
  pub operation_id : ℕ
  pub extent_id : ℕ
  pub extent_version : ℕ
  pub disk_id : ℕ
  pub success : Bool
  pub checksum : Option ℕ
  pub error : Option ServiceError

-- `ExtentStore` with its files, by extent and version.
pub record ExtentStore : Type 0 where
  pub disk_id : ℕ
  pub files : ℕ → ℕ → Slot

unfoldable pub set_slot : ℕ → ℕ → Slot → (ℕ → ℕ → Slot) → ℕ → ℕ → Slot
set_slot extent_id version slot files e v =
    if nat_eq extent_id e then (if nat_eq version v then slot else files e v) else files e v

pub record DataNodeService : Type 0 where
  pub current_epoch : ℕ
  pub operation_log : Map ℕ OperationRecord
  pub stores : Map ℕ ExtentStore
  pub inventory : DiskInventory
  pub index : ExtentIndex
  pub lease_cache : Map ℕ CachedLease
  pub volume_acl : VolumeAcl

abbrev pub new : DiskInventory → ExtentIndex → ℕ → DataNodeService
new inventory index epoch = record {
  current_epoch = epoch;
  operation_log = [];
  stores = [];
  inventory = inventory;
  index = index;
  lease_cache = [];
  volume_acl = [];
}

unfoldable pub register_store : ℕ → ExtentStore → DataNodeService → DataNodeService
register_store disk_id store s = record s { stores = insert disk_id store s.stores }

unfoldable pub set_epoch : ℕ → DataNodeService → DataNodeService
set_epoch epoch s = record s { current_epoch = epoch }

-- `none` stands for `Ok(())`.
unfoldable pub validate_epoch : ℕ → DataNodeService → Option ServiceError
validate_epoch request_epoch s =
    if ltb request_epoch s.current_epoch then some stale_epoch else none

abbrev pub version_allows : Option ℕ → CachedLease → WriteExtentRequest → Option ServiceError
version_allows none c r = some no_lease_version
version_allows (some v) c r =
    if nat_eq r.session_id c.session_id
    then (if ltb v c.lease_version then some stale_lease else none)
    else some other_session

unfoldable pub lease_allows : Option CachedLease → WriteExtentRequest → Option ServiceError
lease_allows none r = none
lease_allows (some c) r = version_allows r.lease_version c r

unfoldable pub validate_write_lease : WriteExtentRequest → DataNodeService → Option ServiceError
unfolding lease_allows
validate_write_lease r s = lease_allows (get r.volume_id s.lease_cache) r

unfoldable pub newer_lease : Option CachedLease → CachedLease → Bool
newer_lease none c = true
newer_lease (some existing) c = ltb existing.lease_version c.lease_version

unfoldable pub update_lease : ℕ → ℕ → ℕ → DataNodeService → DataNodeService
unfolding newer_lease
update_lease volume_id session_id lease_version s =
    let c : CachedLease = record { session_id = session_id; lease_version = lease_version } in
    if newer_lease (get volume_id s.lease_cache) c
    then record s { lease_cache = insert volume_id c s.lease_cache }
    else s

unfoldable pub revoke_lease : ℕ → DataNodeService → DataNodeService
revoke_lease volume_id s = record s { lease_cache = remove volume_id s.lease_cache }

unfoldable pub check_duplicate : ℕ → DataNodeService → Option OperationRecord
check_duplicate op_id s = get op_id s.operation_log

abbrev pub max_operation_log_size : ℕ
max_operation_log_size = 10000

unfoldable pub remove_first : ℕ → List ℕ → Map ℕ OperationRecord → Map ℕ OperationRecord
remove_first zero keys log = log
remove_first (suc count) [] log = log
remove_first (suc count) (k ∷ keys) log = remove_first count keys (remove k log)

module _ (iteration : Map ℕ OperationRecord → List ℕ) where
  unfoldable pub evict : Map ℕ OperationRecord → Map ℕ OperationRecord
  unfolding remove_first
  evict log =
      if ltb max_operation_log_size (length log)
      then remove_first (length log - max_operation_log_size + max_operation_log_size / 10)
          (iteration log) log
      else log

  unfoldable pub record_operation : OperationRecord → DataNodeService → DataNodeService
  unfolding evict
  record_operation r s = record s {
    operation_log = evict (insert r.operation_id r s.operation_log);
  }

  -- The disk that a failed write is recorded under.
  abbrev pub recorded_disk : ℕ → Option ℕ → ℕ
  recorded_disk generated none = generated
  recorded_disk generated (some disk_id) = disk_id

  unfoldable pub write_error :
      ℕ
      → WriteExtentRequest
      → ServiceError
      → DataNodeService
      → DataNodeService × WriteExtentResponse
  unfolding record_operation
  write_error generated r message s =
      let disk_id = recorded_disk generated r.target_disk_id in
      (
        record_operation
            (record {
              operation_id = r.operation_id;
              extent_id = r.extent_id;
              extent_version = r.extent_version;
              disk_id = disk_id;
              checksum = none;
              success = false;
            })
            s,
        record {
          operation_id = r.operation_id;
          extent_id = r.extent_id;
          extent_version = r.extent_version;
          disk_id = disk_id;
          success = false;
          checksum = none;
          error = some message;
        },
      )
