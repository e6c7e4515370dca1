-- ===== src/Tests/Service.antt =====
-- The theorems about the data node's service, at a node with one disk.
use blockyard.Common.{
  ℕ-eq, ℕ, ◌≡◌, ◌≤◌, ◌∙◌, refl, sym, ap, true, Bool-cases, inl, inr, nat_eq, nat_eq_iff, Option,
  none, some, [], ◌∷◌, List, length, map, String, arith,
}
use blockyard.Common.Maps.{Map, get, insert}
use blockyard.DiskState.{allows_allocation}
use blockyard.Storage.Extents.{empty_slot}
use blockyard.Storage.Disks.{
  new_disk, inventory_allocates, disk_allocates, is_qualified, has_bad_regions, any_region,
}
use blockyard.Storage.Acl.{PeerIdentity, node, check_write, check_read}
use blockyard.Storage.Service.{
  WriteExtentRequest, ExtentStore, DataNodeService, OperationRecord, new, update_lease, newer_lease,
  lease_allows, validate_epoch, validate_write_lease, check_duplicate,
}
use blockyard.Storage.Service.Disk.{Faults, select_write_disk, candidates}
use blockyard.Storage.Service.Write.{
  handle_write, unless_duplicate, admit, on_admitted, store_payload, on_staged, write_completed,
}
use blockyard.Storage.Service.Read.{
  ReadExtentRequest, handle_read, read_completed, validate_epoch_for_read, zeros, drop,
}
use blockyard.Storage.Service.Choice.{Eligible}
use blockyard.Storage.Service.ReadBack.{Registered, handle_write-handle_read}
use blockyard.Storage.Service.Repeated.{handle_write-again}
use blockyard.Storage.Service.Fencing.{Entitled, handle_write-checked, update_lease-fences}
use blockyard.Client.Device.{WriteRequest, block_to_extent, split_write, take, block_read}
use blockyard.Handler.Lost.{block_write-lost}
use blockyard.Tests.Demo.{strokes}

abbrev text : PeerIdentity → String
text p = strokes 1

-- The length stands for a checksum.
abbrev sum : List ℕ → ℕ
sum bytes = length bytes

abbrev keys : Map ℕ OperationRecord → List ℕ
keys log = map (λ (e : ℕ × OperationRecord). e.0) log

abbrev no_faults : Faults
no_faults = record { staging = none; committing = none }

abbrev store : ExtentStore
store = record { disk_id = 2; files = λ e v. empty_slot }

abbrev service : DataNodeService
service = record (new (record { disks = (2, new_disk 2) ∷ []; drain_queue = [] }) [] 5) {
  stores = (2, store) ∷ [];
}

abbrev payload : List ℕ
payload = 7 ∷ 8 ∷ 9 ∷ []

abbrev write : WriteExtentRequest
write = record {
  operation_id = 40;
  session_id = 6;
  volume_id = 1;
  extent_id = 11;
  extent_version = 1;
  epoch = 5;
  target_disk_id = none;
  checksum = 3;
  lease_version = some 3;
}

abbrev middle : ReadExtentRequest
middle = record {
  operation_id = 41;
  volume_id = 1;
  extent_id = 11;
  extent_version = 1;
  epoch = 4;
  offset = 1;
  length = 4;
}

service-Registered : Registered service
unfolding get
service-Registered d s h = elim (Bool-cases (nat_eq 2 d)) [
  | inl e ↦
      let same : ◌≡◌ {A = Option ExtentStore} (some store) (some s) = rw e at h in
      let own : store ≡ s = cc in
      sym (ap (λ (x : ExtentStore). x.disk_id) own) ∙ (nat_eq_iff 2 d).0 e
  | inr e ↦ let none' : ◌≡◌ {A = Option ExtentStore} none (some s) = rw e at h in cc
]

write-done :
    (handle_write sum keys 0 100 text no_faults write payload (node 9) service).1.success ≡ true
unfolding handle_write unless_duplicate check_write check_duplicate get admit validate_epoch
    validate_write_lease lease_allows select_write_disk candidates inventory_allocates
    disk_allocates allows_allocation is_qualified has_bad_regions any_region on_admitted
    store_payload on_staged write_completed
write-done = refl

handle_write-handle_read_example :
    let t = (handle_write sum keys 0 100 text no_faults write payload (node 9) service).0 in
    handle_read text sum middle (node 8) t ≡ (t, read_completed middle payload (sum payload))
unfolding check_duplicate get check_read validate_epoch_for_read
handle_write-handle_read_example =
    handle_write-handle_read sum keys 0 100 text no_faults write payload (node 9) middle (node 8)
      service service-Registered refl write-done refl refl refl refl

abbrev chunk : WriteRequest
chunk = record { block_range = record { start = 5; stop = 6 }; data_bytes = payload }

-- Block 5 is the second of its extent of four blocks of three bytes.
block_write-lost_example :
    let t = (handle_write sum keys 0 100 text no_faults write payload (node 9) service).0 in
    let (response, data') = (handle_read text sum (block_read 4 3 5 middle) (node 8) t).1 in
    (response.success ≡ true) × (data' ≡ some (zeros 3))
unfolding check_duplicate get check_read validate_epoch_for_read split_write take drop
    block_to_extent
block_write-lost_example =
    block_write-lost sum keys 0 100 text 4 3 5 payload chunk [] no_faults write (node 9) middle
      (node 8) service (ground arith) (ground arith) (ground arith) (ground arith) refl
      service-Registered refl write-done refl refl refl refl

handle_write-checked_example :
    (check_write text 1 (node 9) service.volume_acl ≡ true)
    × (5 ≤ write.epoch)
    × (lease_allows (get 1 service.lease_cache) write ≡ none)
    × (write.checksum ≡ sum payload)
    × Eligible service.inventory
        (handle_write sum keys 0 100 text no_faults write payload (node 9) service).1.disk_id
unfolding check_duplicate get
handle_write-checked_example =
    handle_write-checked sum keys 0 100 text no_faults write payload (node 9) service refl
      write-done

-- The repetition brings another payload and comes from another node.
handle_write-again_example :
    let (t, response) = handle_write sum keys 0 100 text no_faults write payload (node 9) service in
    let (t', response') = handle_write sum keys 0 100 text no_faults write [] (node 8) t in
    (t' ≡ t)
    × (response'.success ≡ response.success)
    × (response'.checksum ≡ response.checksum)
    × (response'.disk_id ≡ response.disk_id)
unfolding check_duplicate get check_write
handle_write-again_example =
    handle_write-again sum keys 0 100 text no_faults no_faults write write payload [] (node 9)
      (node 8) service refl (ground arith) refl refl

fenced-done :
    (handle_write sum keys 0 100 text no_faults write payload
      (node 9)
      (update_lease 1 6 2 service)).1.success
    ≡ true
unfolding update_lease newer_lease insert handle_write unless_duplicate check_write check_duplicate
    get admit validate_epoch validate_write_lease lease_allows select_write_disk candidates
    inventory_allocates disk_allocates allows_allocation is_qualified has_bad_regions any_region
    on_admitted store_payload on_staged write_completed
fenced-done = refl

update_lease-fences_example : Entitled 6 2 write
unfolding check_duplicate get update_lease newer_lease
update_lease-fences_example =
    update_lease-fences sum keys 0 100 text no_faults write payload (node 9) 6 2 service refl refl
      fenced-done
