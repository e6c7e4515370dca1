-- ===== src/Storage/Service/ReadBack.antt =====
-- A completed write is what a read gives back (crates/blockyard-storage/src/service.rs).
use blockyard.Common.{ℕ-eq, ℕ, ◌≡◌, refl, sym, String, true, none, some, List, nat_eq, arith}
use mathlib.Core.Path.{subst}
use blockyard.Common.Maps.{Map, get, get-insert_self}
use blockyard.Storage.Extents.{
  Slot, ExtentMeta, LocalExtentEntry, file_steps, file_step, renamed, stage_steps, commit_steps,
  read_extent, read_found, read_checked, ok, insert_entry, entry_of,
}
use blockyard.Storage.Acl.{PeerIdentity, check_read}
use blockyard.Storage.Disks.{inventory_reads}
use blockyard.Storage.Service.{
  OperationRecord, WriteExtentRequest, ExtentStore, set_slot, DataNodeService, check_duplicate,
  record_operation,
}
use blockyard.Storage.Service.Disk.{Faults}
use blockyard.Storage.Service.Write.{put_slot, commit_meta, write_completed, handle_write}
use blockyard.Storage.Service.Read.{
  ReadExtentRequest, validate_epoch_for_read, read_completed, on_read, read_store, read_disk,
  read_entry, on_epoch, handle_read,
}
use blockyard.Storage.Service.Choice.{inventory_reads-allocates}
use blockyard.Storage.Service.Accepted.{completed, handle_write-completed}

-- Each store is registered under its own disk.
abbrev pub Registered : DataNodeService → Type 0
Registered s = (d : ℕ) (store : ExtentStore) → get d s.stores ≡ some store → store.disk_id ≡ d

set_slot_self : (e v : ℕ) (slot : Slot) (files : ℕ → ℕ → Slot) → set_slot e v slot files e v ≡ slot
unfolding set_slot
set_slot_self e v slot files = ground arith

module _ (compute_checksum : List ℕ → ℕ) (iteration : Map ℕ OperationRecord → List ℕ)
    (generated now : ℕ) where
  -- What a read finds in the files that a write leaves.
  read_extent-written :
      (m : ExtentMeta) (payload : List ℕ) (slot : Slot)
      → m.checksum ≡ compute_checksum payload
      → read_extent compute_checksum
          (file_steps (commit_steps m) (file_steps (stage_steps payload) slot))
        ≡ ok (payload, compute_checksum payload)
  unfolding read_extent read_found read_checked file_steps file_step renamed
  read_extent-written m payload slot h = rw h (ground arith)

  handle_read-found :
      (to_string : PeerIdentity → String) (q : ReadExtentRequest) (reader : PeerIdentity)
      (t : DataNodeService) (entry : LocalExtentEntry) (store : ExtentStore) (data' : List ℕ)
      → check_read to_string q.volume_id reader t.volume_acl ≡ true
      → validate_epoch_for_read q.epoch t ≡ none
      → get q.extent_id t.index ≡ some entry
      → entry.version ≡ q.extent_version
      → inventory_reads entry.disk_id t.inventory ≡ some true
      → get entry.disk_id t.stores ≡ some store
      → read_extent compute_checksum (store.files q.extent_id q.extent_version)
        ≡ ok (data', entry.checksum)
      → handle_read to_string compute_checksum q reader t
        ≡ (t, read_completed q data' entry.checksum)
  unfolding handle_read on_epoch read_entry read_disk read_store on_read
  handle_read-found to_string q reader t entry store data' may fresh has version readable there
        found =
      let same : nat_eq entry.version q.extent_version ≡ true = ground arith in
      let agree : nat_eq entry.checksum entry.checksum ≡ true = ground arith in
      rw (may, fresh, has, same, readable, there, found, agree) refl

  completed-handle_read :
      (to_string : PeerIdentity → String) (d : ℕ) (store : ExtentStore) (r : WriteExtentRequest)
      (payload : List ℕ) (q : ReadExtentRequest) (reader : PeerIdentity) (s : DataNodeService)
      → store.disk_id ≡ d
      → inventory_reads d s.inventory ≡ some true
      → q.extent_id ≡ r.extent_id
      → q.extent_version ≡ r.extent_version
      → check_read to_string q.volume_id reader s.volume_acl ≡ true
      → validate_epoch_for_read q.epoch s ≡ none
      → let t = (completed compute_checksum iteration generated now (d, store) r payload s).0 in
        handle_read to_string compute_checksum q reader t
        ≡ (t, read_completed q payload (compute_checksum payload))
  unfolding validate_epoch_for_read write_completed put_slot commit_meta record_operation
      insert_entry
  completed-handle_read to_string d store r payload q reader s own readable same_id same_version may
        fresh =
      let m = commit_meta compute_checksum now r payload store in
      let slot =
        file_steps (commit_steps m)
          (file_steps (stage_steps payload) (store.files r.extent_id r.extent_version)) in
      let store' : ExtentStore = record store {
        files = set_slot r.extent_id r.extent_version slot store.files;
      } in
      let t = (completed compute_checksum iteration generated now (d, store) r payload s).0 in
      let indexed : get q.extent_id t.index ≡ some (entry_of m) =
        rw same_id (get-insert_self r.extent_id (entry_of m) s.index) in
      let stored : get store.disk_id t.stores ≡ some store' =
        subst (λ (e : ℕ). get e t.stores ≡ some store') (sym own)
          (get-insert_self d store' s.stores) in
      let in_slot : store'.files q.extent_id q.extent_version ≡ slot =
        rw (same_id, same_version) (set_slot_self r.extent_id r.extent_version slot store.files) in
      let found = read_extent-written m payload (store.files r.extent_id r.extent_version) refl in
      handle_read-found to_string q reader t (entry_of m) store' payload may fresh indexed
        (sym same_version)
        (subst (λ (e : ℕ). inventory_reads e s.inventory ≡ some true) (sym own) readable) stored
        (rw in_slot found)

  -- A write that succeeds, and repeats no operation on record, is what the next read of that extent
  -- version gives back, cut or padded to the range it asks for, and the read changes nothing. The
  -- reader has access, its epoch is at most one behind, and each store is registered under its disk.
  pub handle_write-handle_read :
      (to_string : PeerIdentity → String) (faults : Faults) (r : WriteExtentRequest)
      (payload : List ℕ) (caller : PeerIdentity) (q : ReadExtentRequest) (reader : PeerIdentity)
      (s : DataNodeService)
      → Registered s
      → check_duplicate r.operation_id s ≡ none
      → (handle_write compute_checksum iteration generated now to_string faults r payload caller
          s).1.success
        ≡ true
      → q.extent_id ≡ r.extent_id
      → q.extent_version ≡ r.extent_version
      → check_read to_string q.volume_id reader s.volume_acl ≡ true
      → validate_epoch_for_read q.epoch s ≡ none
      → let t =
          (handle_write compute_checksum iteration generated now to_string faults r payload caller
            s).0 in
        handle_read to_string compute_checksum q reader t
        ≡ (t, read_completed q payload (compute_checksum payload))
  handle_write-handle_read to_string faults r payload caller q reader s registered first done
        same_id same_version may fresh =
      let (_, ((d, store), (_, _, (takes, _), _, has), ended)) =
        handle_write-completed compute_checksum iteration generated now to_string faults r payload
          caller s first done in
      let readable = inventory_reads-allocates s.inventory d takes in
      rw ended (
        completed-handle_read to_string d store r payload q reader s (registered d store has)
          readable same_id same_version may fresh)
