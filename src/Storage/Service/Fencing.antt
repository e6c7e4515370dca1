-- ===== src/Storage/Service/Fencing.antt =====
-- What a write that succeeds has passed: access, epoch, lease, disk and checksum
-- (crates/blockyard-storage/src/service.rs).
use blockyard.Common.{ℕ-eq, ℕ, ◌≡◌, ◌≤◌, refl, String, true, Option, none, some, List, arith}
use mathlib.Core.Path.{subst}
use blockyard.Common.Maps.{Map, get, get-insert_self}
use blockyard.Storage.Acl.{PeerIdentity, check_write}
use blockyard.Storage.Service.{
  OperationRecord, WriteExtentRequest, CachedLease, DataNodeService, version_allows, lease_allows,
  newer_lease, update_lease, check_duplicate,
}
use blockyard.Storage.Service.Disk.{Faults}
use blockyard.Storage.Service.Write.{write_completed, handle_write}
use blockyard.Storage.Service.Choice.{Eligible}
use blockyard.Storage.Service.Accepted.{handle_write-completed}

-- A request in a session with a lease version, or a later one.
abbrev pub Entitled : ℕ → ℕ → WriteExtentRequest → Type 0
Entitled session version r =
    (r.session_id ≡ session) × ((v : ℕ) × (r.lease_version ≡ some v) × (version ≤ v))

version_allows-Entitled :
    (o : Option ℕ) (c : CachedLease) (r : WriteExtentRequest)
    → version_allows o c r ≡ none
    → (r.session_id ≡ c.session_id) × ((v : ℕ) × (o ≡ some v) × (c.lease_version ≤ v))
version_allows-Entitled none c r h = cc
version_allows-Entitled (some v) c r h = (ground arith, (v, refl, ground arith))

lease_allows-Entitled :
    (c : CachedLease) (r : WriteExtentRequest)
    → lease_allows (some c) r ≡ none
    → Entitled c.session_id c.lease_version r
unfolding lease_allows
lease_allows-Entitled c r h = version_allows-Entitled r.lease_version c r h

module _ (compute_checksum : List ℕ → ℕ) (iteration : Map ℕ OperationRecord → List ℕ)
    (generated now : ℕ) where
  -- A write that succeeds, and repeats no operation on record, comes from a client that may write the
  -- volume, in an epoch that is not stale, with a lease that fits the one that the node knows, if
  -- any, and with the payload's checksum; the disk that it reports takes new extents and has no bad
  -- region.
  pub handle_write-checked :
      (to_string : PeerIdentity → String) (faults : Faults) (r : WriteExtentRequest)
      (payload : List ℕ) (caller : PeerIdentity) (s : DataNodeService)
      → check_duplicate r.operation_id s ≡ none
      → (handle_write compute_checksum iteration generated now to_string faults r payload caller
          s).1.success
        ≡ true
      → (check_write to_string r.volume_id caller s.volume_acl ≡ true)
        × (s.current_epoch ≤ r.epoch)
        × (lease_allows (get r.volume_id s.lease_cache) r ≡ none)
        × (r.checksum ≡ compute_checksum payload)
        × Eligible s.inventory
            (handle_write compute_checksum iteration generated now to_string faults r payload caller
              s).1.disk_id
  unfolding write_completed
  handle_write-checked to_string faults r payload caller s first done =
      let (may, ((d, store), (epoch, lease, good, sum, _), ended)) =
        handle_write-completed compute_checksum iteration generated now to_string faults r payload
          caller s first done in
      rw ended (may, epoch, lease, sum, good)

  -- Once the node has learnt of a newer lease of a volume, a write to it that succeeds, and repeats no
  -- operation on record, is of the lease's session and brings the lease's version or a later one.
  pub update_lease-fences :
      (to_string : PeerIdentity → String) (faults : Faults) (r : WriteExtentRequest)
      (payload : List ℕ) (caller : PeerIdentity) (session version : ℕ) (s : DataNodeService)
      → newer_lease
          (get r.volume_id s.lease_cache)
          (record { session_id = session; lease_version = version })
        ≡ true
      → check_duplicate r.operation_id (update_lease r.volume_id session version s) ≡ none
      → (handle_write compute_checksum iteration generated now to_string faults r payload caller
          (update_lease r.volume_id session version s)).1.success
        ≡ true
      → Entitled session version r
  unfolding update_lease
  update_lease-fences to_string faults r payload caller session version s newer first done =
      let c : CachedLease = record { session_id = session; lease_version = version } in
      let t = update_lease r.volume_id session version s in
      let (_, _, lease, _, _) =
        handle_write-checked to_string faults r payload caller t first done in
      let known : get r.volume_id t.lease_cache ≡ some c =
        rw newer (get-insert_self r.volume_id c s.lease_cache) in
      lease_allows-Entitled c r
        (subst (λ (o : Option CachedLease). lease_allows o r ≡ none) known lease)
