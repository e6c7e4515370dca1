-- ===== src/Metadata/Index/Requests.antt =====
-- Every request keeps the invariant of the indices, and none panics.
use blockyard.Common.{
  ℕ-eq, String-eq, ℕ, String, ◌≡◌, ◌≢◌, refl, Option, none, some, List, [], ◌∷◌, arith,
  Option-cases, Bool-cases, nat_eq, inl, inr,
}
use blockyard.Common.Maps.{Map, get, contains_key}
use blockyard.Protection.{ProtectionPolicy, validate}
use blockyard.Lease.{VolumeLease, LeaseRequest}
use blockyard.Metadata.State.{
  MetadataState, MetadataRequest, Outcome, ClusterNode, ClusterDisk, ExtentMapping,
  ExtentMappingEntry, is_error, add_node, remove_node, create_volume, delete_volume, advance_epoch,
  commit_extent_mapping, commit_extent_mapping_batch, update_placement_map, register_node,
  register_disk, update_disk_usage, deregister_disk, cleanup_expired_leases,
}
use blockyard.Metadata.LeaseLaws.Frame.{lease-frame}
use blockyard.Metadata.Leases.{apply_lease_request, cleanup_expired}
use blockyard.Metadata.Commit.{cas_error, commit_into, commit, commit_batch, proceed}
use blockyard.Metadata.Apply.{
  create, delete, drop_mappings, drop_lease, apply_request, place_all, set_usage, register,
}
use blockyard.Metadata.Index.Invariant.{IndexInv, after-IndexInv}
use blockyard.Metadata.Index.Volumes.{added-IndexInv, deleted-IndexInv}

-- A request that does not panic, and whose next state satisfies `P`.
abbrev pub Safe : (MetadataState → Type 0) → Outcome → Type 0
Safe P none = ⊥
Safe P (some (s, resp)) = P s

pub proceed-Safe :
    (P : MetadataState → Type 0) (o : Outcome) (next : MetadataState → Outcome)
    → Safe P o
    → ((s : MetadataState) → P s → Safe P (next s))
    → Safe P (proceed o next)
unfolding proceed
proceed-Safe P none next h k = h
proceed-Safe P (some (s, resp)) next h k = elim (Bool-cases (is_error resp)) [
  | inl bad ↦ rw bad h
  | inr fine ↦ rw fine (k s h)
]

module _ (to_string : ℕ → String) where
  -- The other fields do not matter.
  other-IndexInv :
      (s : MetadataState) (nodes : Map String ClusterNode) (placement : Map String (List ℕ))
      (leases : Map String VolumeLease) (versions ids : ℕ) (raft : Map ℕ ℕ)
      (disks : Map ℕ ClusterDisk)
      → IndexInv to_string s
      → IndexInv to_string (record s {
        nodes = nodes;
        placement_map = placement;
        leases = leases;
        lease_version_counter = versions;
        raft_id_counter = ids;
        node_raft_map = raft;
        cluster_disks = disks;
      })
  other-IndexInv s nodes placement leases versions ids raft disks inv = record {
    mapped = inv.mapped;
    ops_sound = inv.ops_sound;
    versions_sound = inv.versions_sound;
    epochs = inv.epochs;
    starts = inv.starts;
    epoch_fits = inv.epoch_fits;
  }

  commit_into-Safe :
      (vk : String) (r : ExtentMappingEntry) (o : Option (Map ℕ ExtentMapping)) (s : MetadataState)
      → IndexInv to_string s
      → get vk s.extent_mappings ≡ o
      → o ≢ none
      → r.epoch ≡ s.epoch
      → Safe (IndexInv to_string) (commit_into to_string vk r o s)
  unfolding commit_into
  commit_into-Safe vk r none s inv e there current = there refl
  commit_into-Safe vk r (some mappings) s inv e there current =
      elim (Option-cases (cas_error r.previous_version (get r.block_range.start mappings))) [
        | inl fine ↦
            rw (fine, commit_into) (after-IndexInv to_string s vk r mappings e inv (omega arith))
        | inr (err, bad) ↦ rw (bad, commit_into) inv
      ]

  pub commit-Safe :
      (r : ExtentMappingEntry) (s : MetadataState)
      → IndexInv to_string s
      → Safe (IndexInv to_string) (commit to_string r s)
  unfolding commit
  commit-Safe r s inv = elim (Bool-cases (contains_key (to_string r.volume_id) s.volumes)) [
    | inr absent ↦ rw absent inv
    | inl there ↦ elim (Bool-cases (nat_eq r.epoch s.epoch)) [
      | inr stale ↦ rw (there, stale) inv
      | inl current ↦
          rw (there, current)
            (commit_into-Safe (to_string r.volume_id) r _ s inv refl
              (ground (arith, inv.mapped (to_string r.volume_id))) (ground arith))
    ]
  ]

  pub commit_batch-Safe :
      (rs : List ExtentMappingEntry) (s : MetadataState)
      → IndexInv to_string s
      → Safe (IndexInv to_string) (commit_batch to_string rs s)
  unfolding commit_batch
  commit_batch-Safe [] s inv = inv
  commit_batch-Safe (r ∷ rs) s inv =
      proceed-Safe (IndexInv to_string) (commit to_string r s) (commit_batch to_string rs)
        (commit-Safe r s inv) (commit_batch-Safe rs)

  create-Safe :
      (volume_id size_bytes : ℕ) (protection : ProtectionPolicy) (extent_size : ℕ)
      (s : MetadataState)
      → IndexInv to_string s
      → Safe (IndexInv to_string) (create to_string volume_id size_bytes protection extent_size s)
  unfolding create
  create-Safe volume_id size_bytes protection extent_size s inv =
      elim (Bool-cases (contains_key (to_string volume_id) s.volumes)) [
        | inl there ↦ rw there inv
        | inr fresh ↦ elim (Option-cases (validate protection)) [
          | inr (e, bad) ↦ rw (fresh, bad, create) inv
          | inl fine ↦
              rw (fresh, fine, create)
                (added-IndexInv to_string s (to_string volume_id) _ inv fresh)
        ]
      ]

  pub delete-Safe :
      (volume_id : ℕ) (s : MetadataState)
      → IndexInv to_string s
      → Safe (IndexInv to_string) (delete to_string volume_id s)
  unfolding delete drop_mappings drop_lease
  delete-Safe volume_id s inv =
      let key = to_string volume_id in
      elim (Bool-cases (contains_key key s.volumes)) [
        | inr absent ↦ rw absent inv
        | inl there ↦ elim (Option-cases (get key s.extent_mappings)) [
          | inl lost ↦ absurd (ground (arith, inv.mapped key))
          | inr (mappings, here) ↦
              rw (there, here, drop_mappings)
                (other-IndexInv _ _ _ _ _ _ _ _
                  (deleted-IndexInv to_string s key mappings inv here))
        ]
      ]

  place_all-IndexInv :
      (assignments : Map String (List ℕ)) (s : MetadataState)
      → IndexInv to_string s
      → IndexInv to_string (place_all assignments s)
  unfolding place_all
  place_all-IndexInv [] s inv = inv
  place_all-IndexInv ((key, nodes) ∷ rest) s inv =
      place_all-IndexInv rest _ (other-IndexInv s _ _ _ _ _ _ _ inv)

  lease-IndexInv :
      (r : LeaseRequest) (s : MetadataState)
      → IndexInv to_string s
      → IndexInv to_string (apply_lease_request to_string r s).0
  lease-IndexInv r s inv = rw (lease-frame to_string r s) (other-IndexInv s _ _ _ _ _ _ _ inv)

  -- No request panics, and each keeps the invariant.
  pub apply_request-Safe :
      (req : MetadataRequest) (s : MetadataState)
      → IndexInv to_string s
      → Safe (IndexInv to_string) (apply_request to_string req s)
  unfolding apply_request cleanup_expired
  apply_request-Safe (add_node node_id addr) s inv = other-IndexInv s _ _ _ _ _ _ _ inv
  apply_request-Safe (remove_node node_id) s inv =
      elim (Bool-cases (contains_key (to_string node_id) s.nodes)) [
        | inl e ↦ rw e (other-IndexInv s _ _ _ _ _ _ _ inv)
        | inr e ↦ rw e inv
      ]
  apply_request-Safe (create_volume v n p e) s inv = create-Safe v n p e s inv
  apply_request-Safe (delete_volume v) s inv = delete-Safe v s inv
  apply_request-Safe advance_epoch s inv = record {
    mapped = inv.mapped;
    ops_sound = inv.ops_sound;
    versions_sound = inv.versions_sound;
    epochs = λ v b m h. ground (arith, inv.epochs v b m h, inv.epoch_fits);
    starts = inv.starts;
    epoch_fits = ground (arith, inv.epoch_fits);
  }
  apply_request-Safe (commit_extent_mapping r) s inv = commit-Safe r s inv
  apply_request-Safe (commit_extent_mapping_batch rs) s inv = commit_batch-Safe rs s inv
  apply_request-Safe (update_placement_map a) s inv = place_all-IndexInv a s inv
  apply_request-Safe (MetadataRequest.lease r) s inv = lease-IndexInv r s inv
  apply_request-Safe (register_node n a) s inv = elim (Option-cases (get n s.node_raft_map)) [
    | inl e ↦ rw (e, register) (other-IndexInv s _ _ _ _ _ _ _ inv)
    | inr (i, e) ↦ rw (e, register) (other-IndexInv s _ _ _ _ _ _ _ inv)
  ]
  apply_request-Safe (register_disk d n c) s inv = other-IndexInv s _ _ _ _ _ _ _ inv
  apply_request-Safe (update_disk_usage d u) s inv = elim (Option-cases (get d s.cluster_disks)) [
    | inl e ↦ rw (e, set_usage) inv
    | inr (i, e) ↦ rw (e, set_usage) (other-IndexInv s _ _ _ _ _ _ _ inv)
  ]
  apply_request-Safe (deregister_disk d) s inv =
      elim (Bool-cases (contains_key d s.cluster_disks)) [
        | inl e ↦ rw e (other-IndexInv s _ _ _ _ _ _ _ inv)
        | inr e ↦ rw e inv
      ]
  apply_request-Safe (cleanup_expired_leases now) s inv = other-IndexInv s _ _ _ _ _ _ _ inv
