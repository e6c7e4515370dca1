-- ===== src/Tests/Indices.antt =====
-- The index theorems, Raft ids and deletion at the demo state.
use blockyard.Common.{ℕ-eq, String-eq, ◌≡◌, refl, some, none, [], ◌∷◌, arith}
use blockyard.Metadata.State.{
  MetadataState, MetadataResponse, ExtentMapping, ExtentMappingEntry, initial, mapping_at, is_error,
  lookup_by_operation_id, lookup_by_extent_version,
}
use blockyard.Metadata.Commit.{commit, to_mapping}
use blockyard.Metadata.Apply.{replay}
use blockyard.Metadata.Index.Invariant.{IndexInv}
use blockyard.Tests.Demo.{
  strokes, strokes-injective, first_write, second_write, demo_log, demo, program, demo-reached,
}
use blockyard.Metadata.Index.Lookups.{Replays, replay-IndexInv, lookup_by_operation_id-resolves}
use blockyard.Metadata.Deletion.{shared-version_lost}

replay-IndexInv_example : Replays (IndexInv strokes) (replay strokes demo_log initial)
replay-IndexInv_example = replay-IndexInv strokes demo_log

lookup_by_operation_id-resolves_example :
    (m : ExtentMapping) × (lookup_by_operation_id strokes demo 7 ≡ some m)
    × (m.operation_id ≡ some 7)
unfolding program
lookup_by_operation_id-resolves_example =
    lookup_by_operation_id-resolves strokes strokes-injective demo_log demo 7 demo-reached refl

abbrev moved : MetadataState
moved = record demo { nodes = (strokes 4, record { node_id = 4; addr = "b:2" }) ∷ [] }

abbrev deleted : MetadataState
deleted = record demo {
  volumes = [];
  extent_mappings = [];
  operation_index = [];
  extent_version_index = [];
  leases = [];
}

-- A second block under the version of the first.
abbrev twin_write : ExtentMappingEntry
twin_write = record second_write { extent_version = 5 }

abbrev overwrite : ExtentMappingEntry
overwrite = record first_write { extent_version = 6; previous_version = some 5 }

abbrev shared : MetadataState
shared = record demo {
  extent_mappings = (strokes 1, (0, to_mapping first_write) ∷ (8, to_mapping twin_write) ∷ []) ∷ [];
  operation_index = (strokes 7, (strokes 1, 0)) ∷ (strokes 9, (strokes 1, 8)) ∷ [];
  extent_version_index = (5, (strokes 1, 8)) ∷ [];
}

abbrev overwritten : MetadataState
overwritten = record shared {
  extent_mappings = (strokes 1, (0, to_mapping overwrite) ∷ (8, to_mapping twin_write) ∷ []) ∷ [];
  operation_index = (strokes 9, (strokes 1, 8)) ∷ (strokes 7, (strokes 1, 0)) ∷ [];
  extent_version_index = (6, (strokes 1, 0)) ∷ [];
}

twin_write-shared : commit strokes twin_write demo ≡ some (shared, MetadataResponse.epoch 0)
unfolding commit program to_mapping
twin_write-shared = refl

shared-version_lost_example :
    (lookup_by_extent_version overwritten 5 ≡ none)
    × (mapping_at overwritten (strokes 1) 8 ≡ some (to_mapping twin_write))
unfolding commit program is_error to_mapping
shared-version_lost_example =
    shared-version_lost strokes overwrite shared overwritten (MetadataResponse.epoch 0)
      (to_mapping first_write) (to_mapping twin_write) (strokes 1) 8 refl refl refl refl refl
      (omega arith) (omega arith)
