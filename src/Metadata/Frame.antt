-- ===== src/Metadata/Frame.antt =====
-- The parts of the state that commits, volume requests and the placement map leave alone.
use blockyard.Common.{
  ℕ-eq, String-eq, ℕ, String, ◌≡◌, ◌⊎◌, refl, ◌∙◌, ap, Option, none, some, List, [], ◌∷◌, arith,
  Bool-cases, inl, inr,
}
use blockyard.Common.Maps.{Map, get, remove, values, contains_key}
use blockyard.Metadata.State.{
  MetadataState, MetadataRequest, ExtentMapping, ExtentMappingEntry, is_error, add_node,
  remove_node, create_volume, advance_epoch, commit_extent_mapping, commit_extent_mapping_batch,
  update_placement_map,
}
use blockyard.Metadata.Commit.{commit, commit_batch}
use blockyard.Metadata.Apply.{
  apply_request, place_all, put_node, create, delete, drop_mappings, drop_lease,
}
use blockyard.Metadata.Index.Mappings.{store-fields, forget-fields, forget_all-fields}
use blockyard.Metadata.CommitLaws.Outcomes.{commit-Committed, Committed}
use blockyard.Metadata.CommitLaws.Batches.{commit-error}
use blockyard.Metadata.CommitLaws.Epochs.{Keeps, keeps, Keeps-mono, proceed-Keeps}

-- Leases, Raft ids and disks.
abbrev pub SameRest : MetadataState → MetadataState → Type 0
SameRest s t =
    (t.leases ≡ s.leases)
    × (t.lease_version_counter ≡ s.lease_version_counter)
    × (t.raft_id_counter ≡ s.raft_id_counter)
    × (t.node_raft_map ≡ s.node_raft_map)
    × (t.cluster_disks ≡ s.cluster_disks)

abbrev pub IsMapping : MetadataRequest → Type 0
IsMapping (commit_extent_mapping r) = Unit
IsMapping (commit_extent_mapping_batch rs) = Unit
IsMapping (update_placement_map a) = Unit
IsMapping (add_node n a) = Unit
IsMapping (remove_node n) = Unit
IsMapping (create_volume v n p e) = Unit
IsMapping advance_epoch = Unit
IsMapping req = ⊥

SameRest-trans : (s t u : MetadataState) → SameRest s t → SameRest t u → SameRest s u
SameRest-trans s t u (a, b, c, d, e) (a', b', c', d', e') = (a' ∙ a, b' ∙ b, c' ∙ c, d' ∙ d, e' ∙ e)

module _ (to_string : ℕ → String) where
  Committed-SameRest :
      (r : ExtentMappingEntry) (s s' : MetadataState) → Committed to_string r s s' → SameRest s s'
  Committed-SameRest r s s' done =
      rw
        (
          done.stored,
          forget-fields to_string (get r.block_range.start done.mappings) s,
          store-fields to_string (to_string r.volume_id) r done.mappings,
        )
        (refl, refl, refl, refl, refl)

  commit-SameRest :
      (r : ExtentMappingEntry) (s : MetadataState) → Keeps (SameRest s) (commit to_string r s)
  commit-SameRest r s = keeps (SameRest s) (commit to_string r s) (λ t resp c.
      elim (Bool-cases (is_error resp)) [
        | inl bad ↦ rw (commit-error to_string r s t resp c bad) (refl, refl, refl, refl, refl)
        | inr fine ↦ Committed-SameRest r s t (commit-Committed to_string r s t resp c fine).0
      ])

  commit_batch-SameRest :
      (rs : List ExtentMappingEntry) (s : MetadataState)
      → Keeps (SameRest s) (commit_batch to_string rs s)
  unfolding commit_batch
  commit_batch-SameRest [] s = (refl, refl, refl, refl, refl)
  commit_batch-SameRest (r ∷ rs) s =
      proceed-Keeps (SameRest s) (commit to_string r s) (commit_batch to_string rs)
        (commit-SameRest r s)
        (λ t same.
          Keeps-mono (SameRest t) (SameRest s) (commit_batch to_string rs t)
            (λ u. SameRest-trans s t u same) (commit_batch-SameRest rs t))

  place_all-SameRest : (a : Map String (List ℕ)) (s : MetadataState) → SameRest s (place_all a s)
  unfolding place_all
  place_all-SameRest [] s = (refl, refl, refl, refl, refl)
  place_all-SameRest ((key, nodes) ∷ rest) s = place_all-SameRest rest _

  drop_mappings-SameRest :
      (key : String) (o : Option (Map ℕ ExtentMapping)) (s : MetadataState)
      → SameRest s (drop_mappings to_string key o s)
  unfolding drop_mappings
  drop_mappings-SameRest key none s = (refl, refl, refl, refl, refl)
  drop_mappings-SameRest key (some mappings) s =
      rw (forget_all-fields to_string (values mappings)) (refl, refl, refl, refl, refl)

  -- A deletion removes at most the lease of the volume.
  pub delete-rest :
      (volume_id : ℕ) (s : MetadataState)
      → Keeps
          (λ t.
            ((t.leases ≡ s.leases) ⊎ (t.leases ≡ remove (to_string volume_id) s.leases))
            × (t.lease_version_counter ≡ s.lease_version_counter)
            × (t.raft_id_counter ≡ s.raft_id_counter)
            × (t.node_raft_map ≡ s.node_raft_map)
            × (t.cluster_disks ≡ s.cluster_disks))
          (delete to_string volume_id s)
  unfolding delete drop_lease
  delete-rest volume_id s =
      let key = to_string volume_id in
      let (leases, versions, ids, raft, disks) =
        drop_mappings-SameRest key (get key s.extent_mappings)
          (record s { volumes = remove key s.volumes }) in
      elim (Bool-cases (contains_key key s.volumes)) [
        | inl there ↦ rw there (inr (ap (remove key) leases), versions, ids, raft, disks)
        | inr absent ↦ rw absent (inl refl, refl, refl, refl, refl)
      ]

  pub request-SameRest :
      (req : MetadataRequest) (s : MetadataState)
      → IsMapping req
      → Keeps (SameRest s) (apply_request to_string req s)
  unfolding apply_request create put_node
  request-SameRest (commit_extent_mapping r) s one = commit-SameRest r s
  request-SameRest (commit_extent_mapping_batch rs) s one = commit_batch-SameRest rs s
  request-SameRest (update_placement_map a) s one = place_all-SameRest a s
  request-SameRest advance_epoch s one = (refl, refl, refl, refl, refl)
  request-SameRest req s one = ground arith
