-- ===== src/Storage/Service/Write.antt =====
-- crates/blockyard-storage/src/service.rs, `handle_write`: from the checks to the record of the
-- operation. The time of the commit is the argument `now`.
use blockyard.Common.{
  ℕ-eq, ℕ, String, ◌⊎◌, inl, inr, Bool, true, false, Option, none, some, List, if◌then◌else◌,
  nat_eq, length,
}
use blockyard.Common.Maps.{Map, get, insert}
use blockyard.Storage.Extents.{
  Slot, ExtentMeta, insert_entry, default, entry_of, file_steps, stage_steps, commit_steps,
}
use blockyard.Storage.Acl.{PeerIdentity, check_write}
use blockyard.Storage.Service.{
  ServiceError, access_denied, previous_failed, payload_mismatch, no_store, staging_failed,
  commit_failed, OperationRecord, WriteExtentRequest, WriteExtentResponse, ExtentStore, set_slot,
  DataNodeService, validate_epoch, validate_write_lease, check_duplicate, record_operation,
  write_error,
}
use blockyard.Storage.Service.Disk.{select_write_disk, Fault, Faults, steps_until, handle_xfs_error}

-- A check, and what follows it if it passes.
abbrev pub or_else : {A : Type 0} → Option ServiceError → ServiceError ⊎ A → ServiceError ⊎ A
or_else none next = next
or_else (some e) next = inl e

abbrev pub and_then : {A B : Type 0} → ServiceError ⊎ A → (A → ServiceError ⊎ B) → ServiceError ⊎ B
and_then (inl e) f = inl e
and_then (inr a) f = f a

abbrev pub store_of : ℕ → Option ExtentStore → ServiceError ⊎ (ℕ × ExtentStore)
store_of disk_id none = inl no_store
store_of disk_id (some store) = inr (disk_id, store)

abbrev pub previous : Bool → Option ServiceError
previous true = none
previous false = some previous_failed

unfoldable pub replayed : OperationRecord → WriteExtentRequest → WriteExtentResponse
replayed found r = record {
  operation_id = r.operation_id;
  extent_id = found.extent_id;
  extent_version = found.extent_version;
  disk_id = found.disk_id;
  success = found.success;
  checksum = found.checksum;
  error = previous found.success;
}

unfoldable pub put_slot :
    ℕ → ExtentStore → WriteExtentRequest → Slot → DataNodeService → DataNodeService
put_slot disk_id store r slot s = record s {
  stores =
      insert disk_id
        (record store { files = set_slot r.extent_id r.extent_version slot store.files }) s.stores;
}

module _ (compute_checksum : List ℕ → ℕ) where
  -- The checks of a write that is not a repeated one, in their order, and the store that it goes to.
  unfoldable pub admit :
      WriteExtentRequest → List ℕ → DataNodeService → ServiceError ⊎ (ℕ × ExtentStore)
  admit r payload s = or_else (validate_epoch r.epoch s) (
      or_else (validate_write_lease r s) (
        and_then (select_write_disk r.target_disk_id s.inventory) (λ (disk_id : ℕ).
          if nat_eq r.checksum (compute_checksum payload)
          then store_of disk_id (get disk_id s.stores)
          else inl payload_mismatch)))

  unfoldable pub commit_meta : ℕ → WriteExtentRequest → List ℕ → ExtentStore → ExtentMeta
  commit_meta now r payload store = record {
    extent_id = r.extent_id;
    disk_id = store.disk_id;
    version = r.extent_version;
    checksum = compute_checksum payload;
    size = length payload;
    storage_class = default;
    committed_at = now;
  }

module _ (iteration : Map ℕ OperationRecord → List ℕ) where
  unfoldable pub write_completed :
      ℕ → WriteExtentRequest → ExtentMeta → DataNodeService → DataNodeService × WriteExtentResponse
  unfolding record_operation insert_entry
  write_completed disk_id r m s = (
    record_operation iteration
        (record {
          operation_id = r.operation_id;
          extent_id = r.extent_id;
          extent_version = r.extent_version;
          disk_id = disk_id;
          checksum = some m.checksum;
          success = true;
        })
        (record s { index = insert_entry (entry_of m) s.index }),
    record {
      operation_id = r.operation_id;
      extent_id = r.extent_id;
      extent_version = r.extent_version;
      disk_id = disk_id;
      success = true;
      checksum = some m.checksum;
      error = none;
    },
  )

module _ (compute_checksum : List ℕ → ℕ) (iteration : Map ℕ OperationRecord → List ℕ)
    (generated now : ℕ) where
  -- `commit_extent` on a store whose staged file is there.
  unfoldable pub on_staged :
      Option Fault
      → ℕ
      → ExtentStore
      → WriteExtentRequest
      → List ℕ
      → Slot
      → DataNodeService
      → DataNodeService × WriteExtentResponse
  unfolding write_completed put_slot commit_meta
  on_staged none disk_id store r payload slot s =
      let m = commit_meta compute_checksum now r payload store in
      write_completed iteration disk_id r m
        (put_slot disk_id store r (file_steps (commit_steps m) slot) s)
  on_staged (some f) disk_id store r payload slot s =
      let m = commit_meta compute_checksum now r payload store in
      write_error iteration generated r commit_failed (
        handle_xfs_error disk_id f.error
          (put_slot disk_id store r (steps_until f.done (commit_steps m) slot) s))

  unfoldable pub store_payload :
      Option Fault
      → Option Fault
      → ℕ
      → ExtentStore
      → WriteExtentRequest
      → List ℕ
      → DataNodeService
      → DataNodeService × WriteExtentResponse
  unfolding on_staged put_slot
  store_payload none committing disk_id store r payload s =
      on_staged committing disk_id store r payload
        (file_steps (stage_steps payload) (store.files r.extent_id r.extent_version)) s
  store_payload (some f) committing disk_id store r payload s =
      write_error iteration generated r staging_failed (
        handle_xfs_error disk_id f.error (
          put_slot disk_id store r
            (steps_until f.done (stage_steps payload) (store.files r.extent_id r.extent_version))
            s))

  unfoldable pub on_admitted :
      ServiceError ⊎ (ℕ × ExtentStore)
      → Faults
      → WriteExtentRequest
      → List ℕ
      → DataNodeService
      → DataNodeService × WriteExtentResponse
  unfolding store_payload
  on_admitted (inl e) faults r payload s = write_error iteration generated r e s
  on_admitted (inr (disk_id, store)) faults r payload s =
      store_payload faults.staging faults.committing disk_id store r payload s

  unfoldable pub unless_duplicate :
      Option OperationRecord
      → Faults
      → WriteExtentRequest
      → List ℕ
      → DataNodeService
      → DataNodeService × WriteExtentResponse
  unfolding on_admitted admit
  unless_duplicate (some found) faults r payload s = (s, replayed found r)
  unless_duplicate none faults r payload s =
      on_admitted (admit compute_checksum r payload s) faults r payload s

  unfoldable pub handle_write :
      (PeerIdentity → String)
      → Faults
      → WriteExtentRequest
      → List ℕ
      → PeerIdentity
      → DataNodeService
      → DataNodeService × WriteExtentResponse
  unfolding unless_duplicate
  handle_write to_string faults r payload caller s =
      if check_write to_string r.volume_id caller s.volume_acl
      then unless_duplicate (check_duplicate r.operation_id s) faults r payload s
      else write_error iteration generated r access_denied s
