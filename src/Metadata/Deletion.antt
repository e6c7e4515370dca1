-- ===== src/Metadata/Deletion.antt =====
-- crates/blockyard-raft/src/state_machine.rs: what `DeleteVolume` removes.
use blockyard.Common.{
  ℕ-eq, String-eq, ℕ, String, ◌≡◌, ◌≢◌, refl, Option, none, some, arith, ◌==◌, false, if◌then◌else◌,
  ==_refl,
}
use blockyard.Common.Maps.{Map, get, remove, values, get-insert, get-remove}
use blockyard.Metadata.State.{
  MetadataState, MetadataResponse, ExtentMapping, ExtentMappingEntry, mapping_in, mapping_at,
  is_error, lookup_at, lookup_by_extent_version,
}
use blockyard.Metadata.Commit.{commit}
use blockyard.Metadata.Apply.{delete, drop_mappings, drop_lease}
use blockyard.Metadata.Index.Mappings.{forget_all-fields}
use blockyard.Metadata.Index.Invariant.{IndexInv, after_version_index}
use blockyard.Metadata.Index.Requests.{delete-Safe}
use text.Mathlib.TextEquality.{eq_iff}
use blockyard.Metadata.CommitLaws.Outcomes.{commit-Committed}
use blockyard.Metadata.CommitLaws.Effects.{stored-mapping_at}
use blockyard.Metadata.Index.Mappings.{mapping_in-remove}

module _ (to_string : ℕ → String) where
  dropped :
      (key : String) (o : Option (Map ℕ ExtentMapping)) (s : MetadataState)
      → get key s.extent_mappings ≡ o
      → (v : String) (b : ℕ)
      → ((drop_mappings to_string key o s).volumes ≡ s.volumes)
        × ((drop_mappings to_string key o s).leases ≡ s.leases)
        × (mapping_at (drop_mappings to_string key o s) v b
            ≡ (if key == v then none else mapping_at s v b))
  unfolding drop_mappings mapping_in
  dropped key none s e v b = (refl, refl, ground (arith, eq_iff key v))
  dropped key (some mappings) s e v b =
      rw (forget_all-fields to_string (values mappings))
        (refl, refl, mapping_in-remove s.extent_mappings key v b)

  -- A deletion that is not refused leaves no volume, no lease and no mapping under the key, and
  -- keeps the mappings of the other volumes.
  pub delete-removes :
      (volume_id : ℕ) (s s' : MetadataState) (resp : MetadataResponse) (v : String) (b : ℕ)
      → delete to_string volume_id s ≡ some (s', resp)
      → is_error resp ≡ false
      → (get (to_string volume_id) s'.volumes ≡ none)
        × (get (to_string volume_id) s'.leases ≡ none)
        × (mapping_at s' v b ≡ (if to_string volume_id == v then none else mapping_at s v b))
  unfolding delete drop_lease is_error
  delete-removes volume_id s s' resp v b h fine =
      let key = to_string volume_id in
      let t = record s { volumes = remove key s.volumes } in
      ground (
        arith,
        ==_refl key,
        get-remove key key s.volumes,
        get-remove key key s.leases,
        dropped key (get key s.extent_mappings) t refl v b,
      )

  -- In a state that satisfies the invariant, no index entry points into a deleted volume.
  pub delete-unindexed :
      (volume_id : ℕ) (s s' : MetadataState) (resp : MetadataResponse) (b : ℕ) (op : String)
      (version : ℕ)
      → IndexInv to_string s
      → delete to_string volume_id s ≡ some (s', resp)
      → is_error resp ≡ false
      → (get op s'.operation_index ≢ some (to_string volume_id, b))
        × (get version s'.extent_version_index ≢ some (to_string volume_id, b))
  delete-unindexed volume_id s s' resp b op version inv h fine =
      let key = to_string volume_id in
      let safe : IndexInv to_string s' = after-delete h in
      let gone : mapping_at s' key b ≡ none =
        ground (arith, ==_refl key, delete-removes volume_id s s' resp key b h fine) in
      (
        λ e. ground (arith, safe.ops_sound op key b e, gone),
        λ e. ground (arith, safe.versions_sound version key b e, gone),
      )
    where
      after-delete : delete to_string volume_id s ≡ some (s', resp) → IndexInv to_string s'
      after-delete e = rw e at (delete-Safe to_string volume_id s inv)

  -- The extent version index keeps one location for each version. If mappings at two blocks
  -- have one version, then a commit that replaces one of them by another version makes the query by
  -- the old version return nothing, though the other mapping is still there.
  pub shared-version_lost :
      (r : ExtentMappingEntry) (s s' : MetadataState) (resp : MetadataResponse)
      (m m' : ExtentMapping) (v : String) (b : ℕ)
      → commit to_string r s ≡ some (s', resp)
      → is_error resp ≡ false
      → mapping_at s (to_string r.volume_id) r.block_range.start ≡ some m
      → mapping_at s v b ≡ some m'
      → m'.extent_version ≡ m.extent_version
      → r.extent_version ≢ m.extent_version
      → r.block_range.start ≢ b
      → (lookup_by_extent_version s' m.extent_version ≡ none) × (mapping_at s' v b ≡ some m')
  unfolding lookup_by_extent_version lookup_at
  shared-version_lost r s s' resp m m' v b h fine here there same other apart =
      let (done, shape) = commit-Committed to_string r s s' resp h fine in
      let key = to_string r.volume_id in
      let index = after_version_index to_string s key r done.mappings done.here in
      let kept = stored-mapping_at to_string r s s' done v b in
      (
        rw (done.stored, index, here)
            (ground (
              arith,
              get-insert r.extent_version m.extent_version (key, r.block_range.start)
                  (remove m.extent_version s.extent_version_index),
              get-remove m.extent_version m.extent_version s.extent_version_index,
            )),
        ground (arith, kept, there),
      )
