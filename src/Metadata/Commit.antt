-- ===== src/Metadata/Commit.antt =====
-- crates/blockyard-raft/src/state_machine.rs: `CommitExtentMapping` and its batch.
use blockyard.Common.{
  ℕ-eq, String-eq, ℕ, String, not, Option, none, some, List, [], ◌∷◌, nat_eq, if◌then◌else◌,
}
use blockyard.Common.Maps.{Map, get, insert, remove, contains_key}
use blockyard.Metadata.State.{
  MetadataState, MetadataError, MetadataResponse, ExtentMapping, ExtentMappingEntry, Location,
  Outcome, volume_not_found, stale_epoch, cas_mismatch, cas_missing, is_error,
}

-- The compare-and-swap of `previous_version` with the mapping that is there.
unfoldable pub cas_error : Option ℕ → Option ExtentMapping → Option MetadataError
cas_error none existing = none
cas_error (some prev_ver) (some existing) =
    if nat_eq existing.extent_version prev_ver then none else some cas_mismatch
cas_error (some prev_ver) none = if nat_eq prev_ver 0 then none else some cas_missing

unfoldable pub to_mapping : ExtentMappingEntry → ExtentMapping
to_mapping r = record {
  extent_id = r.extent_id;
  extent_version = r.extent_version;
  epoch = r.epoch;
  block_range = r.block_range;
  replica_locations = r.replica_locations;
  checksums = r.checksums;
  operation_id = r.operation_id;
}

-- The early return of the batch loop: an error ends it.
unfoldable pub proceed : Outcome → (MetadataState → Outcome) → Outcome
unfolding is_error
proceed none next = none
proceed (some (s, resp)) next = if is_error resp then some (s, resp) else next s

module _ (to_string : ℕ → String) where
  unfoldable pub forget_operation : Option ℕ → Map String Location → Map String Location
  forget_operation none m = m
  forget_operation (some op_id) m = remove (to_string op_id) m

  unfoldable pub note_operation : Option ℕ → Location → Map String Location → Map String Location
  note_operation none loc m = m
  note_operation (some op_id) loc m = insert (to_string op_id) loc m

  -- The index entries of the mapping that is replaced go.
  unfoldable pub forget : Option ExtentMapping → MetadataState → MetadataState
  unfolding forget_operation
  forget none s = s
  forget (some existing) s = record s {
    operation_index = forget_operation existing.operation_id s.operation_index;
    extent_version_index = remove existing.extent_version s.extent_version_index;
  }

  unfoldable pub store_mapping :
      String → ExtentMappingEntry → Map ℕ ExtentMapping → MetadataState → MetadataState
  unfolding to_mapping note_operation
  store_mapping vol_key r mappings s =
      let loc : Location = (vol_key, r.block_range.start) in
      record s {
        operation_index = note_operation r.operation_id loc s.operation_index;
        extent_version_index = insert r.extent_version loc s.extent_version_index;
        extent_mappings =
            insert vol_key (insert r.block_range.start (to_mapping r) mappings) s.extent_mappings;
      }

  -- From the `expect` on, for a volume that exists and a current epoch.
  unfoldable pub commit_into :
      String → ExtentMappingEntry → Option (Map ℕ ExtentMapping) → MetadataState → Outcome
  unfolding cas_error forget store_mapping
  commit_into vol_key r none s = none
  commit_into vol_key r (some mappings) s =
      let existing = get r.block_range.start mappings in
      elim (cas_error r.previous_version existing) [
        | some e ↦ some (s, MetadataResponse.error e)
        | none ↦
            some
              (store_mapping vol_key r mappings (forget existing s), MetadataResponse.epoch s.epoch)
      ]

  unfoldable pub commit : ExtentMappingEntry → MetadataState → Outcome
  unfolding commit_into
  commit r s =
      let vol_key = to_string r.volume_id in
      if not (contains_key vol_key s.volumes)
      then some (s, MetadataResponse.error volume_not_found)
      else if not (nat_eq r.epoch s.epoch)
      then some (s, MetadataResponse.error stale_epoch)
      else commit_into vol_key r (get vol_key s.extent_mappings) s

  -- The entries in order, up to the first that is refused.
  unfoldable pub commit_batch : List ExtentMappingEntry → MetadataState → Outcome
  unfolding proceed
  commit_batch [] s = some (s, MetadataResponse.epoch s.epoch)
  commit_batch (r ∷ rs) s = proceed (commit r s) (commit_batch rs)
