-- ===== src/Tests/Demo.antt =====
-- A small cluster: volume 1 with one committed block and a lease, node 4 registered.

use blockyard.Common.{
  ℕ-eq, String-eq, ℕ, zero, suc, String, ◌≡◌, refl, ap, some, [], ◌∷◌, List, arith,
}
use blockyard.Common.Maps.{get, insert, remove, values, retain}
use blockyard.Lease.{LeaseTerms, VolumeLease, acquire}
use blockyard.Protection.{replicated}
use blockyard.Metadata.State.{
  MetadataState, MetadataRequest, ExtentMappingEntry, initial, create_volume, commit_extent_mapping,
  register_node, mapping_in,
}
use blockyard.Metadata.Leases.{apply_lease_request}
use blockyard.Metadata.Commit.{commit, commit_batch}
use blockyard.Metadata.Apply.{apply_request, replay}
use blockyard.Metadata.Index.Invariant.{IndexInv}
use blockyard.Metadata.Index.Lookups.{replay-IndexInv}

-- Ids written in strokes stand for the rendering of a UUID.
abbrev pub strokes : ℕ → String
strokes zero = String.[]
strokes (suc n) = String.◌∷◌ "i" (strokes n)

abbrev count : String → ℕ
count String.[] = 0
count (String.◌∷◌ c s) = suc (count s)

count-strokes : (n : ℕ) → count (strokes n) ≡ n
count-strokes zero = refl
count-strokes (suc n) = ap suc (count-strokes n)

pub strokes-injective : (i j : ℕ) → strokes i ≡ strokes j → i ≡ j
strokes-injective i j e = omega (arith, count-strokes i, count-strokes j, ap count e)

abbrev pub first_write : ExtentMappingEntry
first_write = record {
  volume_id = 1;
  block_range = record { start = 0; stop = 8 };
  extent_id = 11;
  extent_version = 5;
  epoch = 0;
  replica_locations = 4 ∷ [];
  checksums = [];
  operation_id = some 7;
  previous_version = some 0;
}

abbrev pub second_write : ExtentMappingEntry
second_write = record first_write {
  block_range = record { start = 8; stop = 16 };
  extent_id = 12;
  extent_version = 6;
  operation_id = some 9;
}

abbrev pub terms : LeaseTerms
terms = record { volume_id = 1; session_id = 30; now_ms = 100; ttl_ms = 50 }

abbrev pub demo_log : List MetadataRequest
demo_log =
    create_volume 1 4096 (replicated 3) 512
    ∷ commit_extent_mapping first_write
    ∷ register_node 4 "a:1"
    ∷ MetadataRequest.lease (acquire terms)
    ∷ []

abbrev pub demo_lease : VolumeLease
demo_lease = record {
  volume_id = 1;
  holder = 30;
  granted_at_ms = 100;
  expires_at_ms = 150;
  lease_version = 1;
}

abbrev pub demo : MetadataState
demo = record initial {
  nodes = (strokes 4, record { node_id = 4; addr = "a:1" }) ∷ [];
  volumes =
      (
        strokes 1,
        record {
          volume_id = 1;
          size_bytes = 4096;
          protection = replicated 3;
          extent_size = 512;
          created_at_epoch = 0;
        },
      )
      ∷ [];
  extent_mappings =
      (
        strokes 1,
        (
          0,
          record {
            extent_id = 11;
            extent_version = 5;
            epoch = 0;
            block_range = record { start = 0; stop = 8 };
            replica_locations = 4 ∷ [];
            checksums = [];
            operation_id = some 7;
          },
        )
            ∷ [],
      )
      ∷ [];
  operation_index = (strokes 7, (strokes 1, 0)) ∷ [];
  extent_version_index = (5, (strokes 1, 0)) ∷ [];
  leases = (strokes 1, demo_lease) ∷ [];
  lease_version_counter = 1;
  raft_id_counter = 1;
  node_raft_map = (4, 1) ∷ [];
}

-- What a run of the metadata model opens.
unfoldable pub program : Unit {0}
unfolding get insert remove values retain apply_request replay commit_batch commit
    apply_lease_request mapping_in
program = tt

pub demo-reached : replay strokes demo_log initial ≡ some demo
unfolding program
demo-reached = refl

pub demo-IndexInv : IndexInv strokes demo
demo-IndexInv = rw demo-reached at (replay-IndexInv strokes demo_log)
