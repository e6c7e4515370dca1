-- ===== src/Storage/Service/Repeated.antt =====
-- Repeated writes, and writes of a client whose lease has passed on
-- (crates/blockyard-storage/src/service.rs).
use blockyard.Common.{
  ℕ-eq, ℕ, ◌≡◌, ◌≤◌, ◌<◌, ◌+◌, ◌∙◌, refl, sym, String, ◌⊎◌, inl, inr, true, false, Bool-cases,
  Option, none, some, List, [], ◌∷◌, ltb, length, arith,
}
use mathlib.Core.Path.{subst}
use blockyard.Common.Maps.{Map, insert, get-insert_self}
use blockyard.Storage.Acl.{PeerIdentity, check_write}
use blockyard.Storage.Service.{
  max_operation_log_size, ServiceError, access_denied, OperationRecord, WriteExtentRequest,
  WriteExtentResponse, ExtentStore, DataNodeService, evict, check_duplicate, record_operation,
  write_error,
}
use blockyard.Storage.Service.Disk.{Faults, Fault, FsError, handle_xfs_error}
use blockyard.Storage.Service.Write.{
  put_slot, admit, on_staged, store_payload, on_admitted, write_completed, replayed,
  unless_duplicate, handle_write,
}

length-insert :
    (k : ℕ) (v : OperationRecord) (m : Map ℕ OperationRecord) → length (insert k v m) ≤ length m + 1
unfolding insert
length-insert k v [] = omega arith
length-insert k v ((j, w) ∷ m) = ground (arith, length-insert k v m)

-- A state that holds the record of an operation with the outcome of a response.
abbrev pub Holds : ℕ → DataNodeService × WriteExtentResponse → Type 0
Holds op (s, response) =
    (found : OperationRecord) × (check_duplicate op s ≡ some found)
    × (found.success ≡ response.success)
    × (found.checksum ≡ response.checksum)
    × (found.disk_id ≡ response.disk_id)

module _ (compute_checksum : List ℕ → ℕ) (iteration : Map ℕ OperationRecord → List ℕ)
    (generated now : ℕ) where
  record_operation-found :
      (o : OperationRecord) (s : DataNodeService)
      → length s.operation_log < max_operation_log_size
      → check_duplicate o.operation_id (record_operation iteration o s) ≡ some o
  unfolding record_operation evict check_duplicate
  record_operation-found o s room =
      let few : ltb max_operation_log_size (length (insert o.operation_id o s.operation_log))
          ≡ false =
        ground (arith, length-insert o.operation_id o s.operation_log) in
      rw few (get-insert_self o.operation_id o s.operation_log)

  write_error-Holds :
      (r : WriteExtentRequest) (e : ServiceError) (s : DataNodeService)
      → length s.operation_log < max_operation_log_size
      → Holds r.operation_id (write_error iteration generated r e s)
  unfolding write_error
  write_error-Holds r e s room = (_, record_operation-found _ s room, refl, refl, refl)

  xfs-log :
      (d : ℕ) (e : FsError) (s : DataNodeService)
      → (handle_xfs_error d e s).operation_log ≡ s.operation_log
  unfolding handle_xfs_error
  xfs-log d e s = ground arith

  -- What a failed call of the file system leaves of the log.
  faulted-Holds :
      (d : ℕ) (f : FsError) (r : WriteExtentRequest) (e : ServiceError) (s : DataNodeService)
      → length s.operation_log < max_operation_log_size
      → Holds r.operation_id (write_error iteration generated r e (handle_xfs_error d f s))
  faulted-Holds d f r e s room = write_error-Holds r e (handle_xfs_error d f s) (
      subst (λ (l : Map ℕ OperationRecord). length l < max_operation_log_size) (sym (xfs-log d f s))
        room)

  store_payload-Holds :
      (f g : Option Fault) (d : ℕ) (store : ExtentStore) (r : WriteExtentRequest) (payload : List ℕ)
      (s : DataNodeService)
      → length s.operation_log < max_operation_log_size
      → Holds r.operation_id
          (store_payload compute_checksum iteration generated now f g d store r payload s)
  unfolding store_payload on_staged write_completed put_slot
  store_payload-Holds none none d store r payload s room =
      (_, record_operation-found _ _ room, refl, refl, refl)
  store_payload-Holds (some f) g d store r payload s room = faulted-Holds d f.error r _ _ room
  store_payload-Holds none (some g) d store r payload s room = faulted-Holds d g.error r _ _ room

  on_admitted-Holds :
      (o : ServiceError ⊎ (ℕ × ExtentStore)) (faults : Faults) (r : WriteExtentRequest)
      (payload : List ℕ) (s : DataNodeService)
      → length s.operation_log < max_operation_log_size
      → Holds r.operation_id
          (on_admitted compute_checksum iteration generated now o faults r payload s)
  unfolding on_admitted
  on_admitted-Holds (inl e) faults r payload s room = write_error-Holds r e s room
  on_admitted-Holds (inr (d, store)) faults r payload s room =
      store_payload-Holds faults.staging faults.committing d store r payload s room

  handle_write-Holds :
      (to_string : PeerIdentity → String) (faults : Faults) (r : WriteExtentRequest)
      (payload : List ℕ) (caller : PeerIdentity) (s : DataNodeService)
      → check_duplicate r.operation_id s ≡ none
      → length s.operation_log < max_operation_log_size
      → Holds r.operation_id (
          handle_write compute_checksum iteration generated now to_string faults r payload caller s)
  unfolding handle_write unless_duplicate
  handle_write-Holds to_string faults r payload caller s first room =
      elim (Bool-cases (check_write to_string r.volume_id caller s.volume_acl)) [
        | inl e ↦
            rw (e, first)
              (on_admitted-Holds (admit compute_checksum r payload s) faults r payload s room)
        | inr e ↦ rw e (write_error-Holds r access_denied s room)
      ]

  handle_write-replayed :
      (to_string : PeerIdentity → String) (faults : Faults) (r : WriteExtentRequest)
      (payload : List ℕ) (caller : PeerIdentity) (t : DataNodeService) (found : OperationRecord)
      → check_write to_string r.volume_id caller t.volume_acl ≡ true
      → check_duplicate r.operation_id t ≡ some found
      → (handle_write compute_checksum iteration generated now to_string faults r payload caller t
          ≡ (t, replayed found r))
        × ((replayed found r).success ≡ found.success)
        × ((replayed found r).checksum ≡ found.checksum)
        × ((replayed found r).disk_id ≡ found.disk_id)
  unfolding handle_write unless_duplicate replayed
  handle_write-replayed to_string faults r payload caller t found may there =
      (rw (may, there) refl, refl, refl, refl)

  -- A second write with the identifier of a first one, by a client that may write, changes nothing
  -- and is answered with the first one's outcome, checksum and disk, whatever it asks for: a write
  -- that has failed stays failed. The identifier is new to the log before, and the log is not full.
  pub handle_write-again :
      (to_string : PeerIdentity → String) (faults faults' : Faults) (r r' : WriteExtentRequest)
      (payload payload' : List ℕ) (caller caller' : PeerIdentity) (s : DataNodeService)
      → check_duplicate r.operation_id s ≡ none
      → length s.operation_log < max_operation_log_size
      → r'.operation_id ≡ r.operation_id
      → check_write to_string r'.volume_id caller'
          (handle_write compute_checksum iteration generated now to_string faults r payload caller
            s).0.volume_acl
        ≡ true
      → let (t, response) =
          handle_write compute_checksum iteration generated now to_string faults r payload caller
            s in
        let (t', response') =
          handle_write compute_checksum iteration generated now to_string faults' r' payload'
            caller' t in
        (t' ≡ t)
        × (response'.success ≡ response.success)
        × (response'.checksum ≡ response.checksum)
        × (response'.disk_id ≡ response.disk_id)
  handle_write-again to_string faults faults' r r' payload payload' caller caller' s first room same
        may =
      let (found, there, outcome, sum, disk) =
        handle_write-Holds to_string faults r payload caller s first room in
      let t =
        (handle_write compute_checksum iteration generated now to_string faults r payload caller
          s).0 in
      let (again, outcome', sum', disk') =
        handle_write-replayed to_string faults' r' payload' caller' t found may
          (subst (λ (op : ℕ). check_duplicate op t ≡ some found) (sym same) there) in
      rw again (refl, outcome' ∙ outcome, sum' ∙ sum, disk' ∙ disk)
