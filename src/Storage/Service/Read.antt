-- ===== src/Storage/Service/Read.antt =====
-- crates/blockyard-storage/src/service.rs, `handle_read`. A byte is a number, and 0 the padding.
use blockyard.Common.{
  ℕ-eq, ℕ, zero, suc, ◌+◌, String, Bool, true, false, Option, none, some, List, [], ◌∷◌,
  if◌then◌else◌, ltb, leb, nat_eq, length, saturating_add,
}
use blockyard.Common.Maps.{get}
use blockyard.DiskState.{failed, suspect}
use blockyard.Storage.Extents.{LocalExtentEntry, StorageResult, ok, err, read_extent}
use blockyard.Storage.Disks.{inventory_reads, transition_state}
use blockyard.Storage.Acl.{PeerIdentity, check_read}
use blockyard.Storage.Service.{
  ServiceError, access_denied, stale_epoch, extent_not_found, version_mismatch, disk_not_readable,
  no_store, read_failed, checksum_mismatch, ExtentStore, DataNodeService,
}
use blockyard.Storage.Service.Disk.{handle_read_error}

pub record ReadExtentRequest : Type 0 where
  pub operation_id : ℕ
  pub volume_id : ℕ
  pub extent_id : ℕ
  pub extent_version : ℕ
  pub epoch : ℕ
  pub offset : ℕ
  pub length : ℕ

pub record ReadExtentResponse : Type 0 where
  pub operation_id : ℕ
  pub extent_id : ℕ
  pub extent_version : ℕ
  pub success : Bool
  pub checksum : Option ℕ
  pub payload_size : ℕ
  pub error : Option ServiceError

unfoldable pub zeros : ℕ → List ℕ
zeros zero = []
zeros (suc n) = 0 ∷ zeros n

unfoldable pub drop : ℕ → List ℕ → List ℕ
drop zero xs = xs
drop (suc n) [] = []
drop (suc n) (x ∷ xs) = drop n xs

-- `resize` of a list to a length, with zeros.
unfoldable pub resize : ℕ → List ℕ → List ℕ
unfolding zeros
resize zero xs = []
resize (suc n) [] = zeros (suc n)
resize (suc n) (x ∷ xs) = x ∷ resize n xs

-- The part of the data that a request asks for. The end of the range is taken not to overflow, and
-- `resize` cuts the data at the end of the range or pads them with zeros up to it.
unfoldable pub payload_of : ReadExtentRequest → List ℕ → List ℕ
unfolding zeros drop resize
payload_of r data' =
    if nat_eq (r.offset + r.length) 0
    then data'
    else (if leb (length data') r.offset
        then zeros r.length
        else resize r.length (drop r.offset data'))

unfoldable pub validate_epoch_for_read : ℕ → DataNodeService → Option ServiceError
validate_epoch_for_read request_epoch s =
    if ltb (saturating_add request_epoch 1) s.current_epoch then some stale_epoch else none

abbrev pub ReadResult : Type 0
ReadResult = ReadExtentResponse × Option (List ℕ)

unfoldable pub read_error : ReadExtentRequest → ServiceError → ReadResult
read_error r message = (
  record {
    operation_id = r.operation_id;
    extent_id = r.extent_id;
    extent_version = r.extent_version;
    success = false;
    checksum = none;
    payload_size = 0;
    error = some message;
  },
  none,
)

unfoldable pub read_completed : ReadExtentRequest → List ℕ → ℕ → ReadResult
unfolding payload_of
read_completed r data' checksum = (
  record {
    operation_id = r.operation_id;
    extent_id = r.extent_id;
    extent_version = r.extent_version;
    success = true;
    checksum = some checksum;
    payload_size = length (payload_of r data');
    error = none;
  },
  some (payload_of r data'),
)

unfoldable pub on_read :
    StorageResult (List ℕ × ℕ)
    → ReadExtentRequest
    → LocalExtentEntry
    → DataNodeService
    → DataNodeService × ReadResult
unfolding read_error read_completed handle_read_error
on_read (err e) r entry s = (handle_read_error entry.disk_id e s, read_error r read_failed)
on_read (ok (data', read_checksum)) r entry s =
    if nat_eq read_checksum entry.checksum then (s, read_completed r data' read_checksum) else (
      record s { inventory = (transition_state entry.disk_id suspect s.inventory).0 },
      read_error r checksum_mismatch,
    )

module _ (to_string : PeerIdentity → String) (compute_checksum : List ℕ → ℕ) where
  unfoldable pub read_store :
      Option ExtentStore
      → ReadExtentRequest
      → LocalExtentEntry
      → DataNodeService
      → DataNodeService × ReadResult
  unfolding on_read read_error
  read_store none r entry s = (s, read_error r no_store)
  read_store (some store) r entry s =
      on_read (read_extent compute_checksum (store.files r.extent_id r.extent_version)) r entry s

  -- Only the answer that a known disk does not allow reads refuses the read.
  unfoldable pub read_disk :
      Option Bool
      → ReadExtentRequest
      → LocalExtentEntry
      → DataNodeService
      → DataNodeService × ReadResult
  unfolding read_store read_error
  read_disk (some false) r entry s = (
    record s { inventory = (transition_state entry.disk_id failed s.inventory).0 },
    read_error r disk_not_readable,
  )
  read_disk _ r entry s = read_store (get entry.disk_id s.stores) r entry s

  unfoldable pub read_entry :
      Option LocalExtentEntry → ReadExtentRequest → DataNodeService → DataNodeService × ReadResult
  unfolding read_disk read_error
  read_entry none r s = (s, read_error r extent_not_found)
  read_entry (some entry) r s =
      if nat_eq entry.version r.extent_version
      then read_disk (inventory_reads entry.disk_id s.inventory) r entry s
      else (s, read_error r version_mismatch)

  unfoldable pub on_epoch :
      Option ServiceError → ReadExtentRequest → DataNodeService → DataNodeService × ReadResult
  unfolding read_entry read_error
  on_epoch (some e) r s = (s, read_error r e)
  on_epoch none r s = read_entry (get r.extent_id s.index) r s

  unfoldable pub handle_read :
      ReadExtentRequest → PeerIdentity → DataNodeService → DataNodeService × ReadResult
  unfolding on_epoch validate_epoch_for_read read_error
  handle_read r caller s =
      if check_read to_string r.volume_id caller s.volume_acl
      then on_epoch (validate_epoch_for_read r.epoch s) r s
      else (s, read_error r access_denied)
