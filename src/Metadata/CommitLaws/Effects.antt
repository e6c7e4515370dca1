-- ===== src/Metadata/CommitLaws/Effects.antt =====
-- What an accepted commit stores, and what it leaves alone.
use blockyard.Common.{
  ℕ-eq, String-eq, ℕ, String, ◌≡◌, some, arith, ◌==◌, false, if◌then◌else◌, ==_refl,
}
use blockyard.Common.Maps.{get, get-insert_self}
use blockyard.Metadata.State.{
  MetadataState, MetadataResponse, ExtentMappingEntry, mapping_at, is_error, lookup_at,
  lookup_by_operation_id, lookup_by_extent_version,
}
use blockyard.Metadata.Commit.{to_mapping, commit}
use blockyard.Metadata.Index.Invariant.{
  mapping_at-after, after-rest, after_operation_index, after_version_index,
}
use blockyard.Metadata.CommitLaws.Outcomes.{Committed, commit-Committed}

module _ (to_string : ℕ → String) where
  pub stored-mapping_at :
      (r : ExtentMappingEntry) (s s' : MetadataState)
      → Committed to_string r s s'
      → (v : String) (b : ℕ)
      → mapping_at s' v b ≡ (
          if to_string r.volume_id == v
          then (if r.block_range.start == b then some (to_mapping r) else mapping_at s v b)
          else mapping_at s v b)
  stored-mapping_at r s s' done v b =
      rw done.stored
        (mapping_at-after to_string s (to_string r.volume_id) r done.mappings done.here v b)

  stored-operation_index :
      (r : ExtentMappingEntry) (s s' : MetadataState) (op_id : ℕ)
      → Committed to_string r s s'
      → r.operation_id ≡ some op_id
      → get (to_string op_id) s'.operation_index ≡ some (to_string r.volume_id, r.block_range.start)
  stored-operation_index r s s' op_id done e =
      rw
        (
          done.stored,
          after_operation_index to_string s (to_string r.volume_id) r done.mappings done.here,
          e,
        )
        (get-insert_self (to_string op_id) _ _)

  stored-version_index :
      (r : ExtentMappingEntry) (s s' : MetadataState)
      → Committed to_string r s s'
      → get r.extent_version s'.extent_version_index
        ≡ some (to_string r.volume_id, r.block_range.start)
  stored-version_index r s s' done =
      rw
        (
          done.stored,
          after_version_index to_string s (to_string r.volume_id) r done.mappings done.here,
        )
        (get-insert_self r.extent_version _ _)

  -- A commit that is not refused answers with the current epoch, keeps the epoch and the volumes,
  -- puts its mapping at the first block of its range and leaves every other mapping as it was.
  pub commit-mapping_at :
      (r : ExtentMappingEntry) (s s' : MetadataState) (resp : MetadataResponse) (v : String) (b : ℕ)
      → commit to_string r s ≡ some (s', resp)
      → is_error resp ≡ false
      → (resp ≡ MetadataResponse.epoch s.epoch)
        × (s'.epoch ≡ s.epoch)
        × (s'.volumes ≡ s.volumes)
        × (mapping_at s' v b ≡ (
            if to_string r.volume_id == v
            then (if r.block_range.start == b then some (to_mapping r) else mapping_at s v b)
            else mapping_at s v b))
  commit-mapping_at r s s' resp v b h fine =
      let (done, shape) = commit-Committed to_string r s s' resp h fine in
      let (volumes, epoch, _) =
        after-rest to_string s (to_string r.volume_id) r done.mappings done.here in
      (shape, rw done.stored epoch, rw done.stored volumes, stored-mapping_at r s s' done v b)

  -- Right after a commit that is not refused, the queries by its extent version and by its
  -- operation id return its mapping.
  pub commit-lookup :
      (r : ExtentMappingEntry) (s s' : MetadataState) (resp : MetadataResponse) (op_id : ℕ)
      → commit to_string r s ≡ some (s', resp)
      → is_error resp ≡ false
      → r.operation_id ≡ some op_id
      → (lookup_by_extent_version s' r.extent_version ≡ some (to_mapping r))
        × (lookup_by_operation_id to_string s' op_id ≡ some (to_mapping r))
  unfolding lookup_by_extent_version lookup_by_operation_id
  commit-lookup r s s' resp op_id h fine e =
      let (done, shape) = commit-Committed to_string r s s' resp h fine in
      let placed : mapping_at s' (to_string r.volume_id) r.block_range.start ≡ some (to_mapping r) =
        ground (
          arith,
          ==_refl (to_string r.volume_id),
          stored-mapping_at r s s' done (to_string r.volume_id) r.block_range.start,
        ) in
      (
        rw (stored-version_index r s s' done, lookup_at) placed,
        rw (stored-operation_index r s s' op_id done e, lookup_at) placed,
      )
