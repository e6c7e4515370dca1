-- ===== src/Metadata/Apply.antt =====
-- crates/blockyard-raft/src/state_machine.rs: `apply_request`, and the replay of a log.
use blockyard.Common.{
  ℕ-eq, String-eq, ℕ, String, Option, none, some, List, [], ◌∷◌, if◌then◌else◌, saturating_add,
  wrapping_add,
}
use blockyard.Common.Maps.{Map, get, insert, remove, values, contains_key}
use blockyard.Protection.{ProtectionPolicy, validate}
use blockyard.DiskState.{healthy}
use blockyard.Metadata.State.{
  MetadataState, MetadataRequest, MetadataResponse, ExtentMapping, ClusterDisk, Outcome, add_node,
  remove_node, create_volume, delete_volume, advance_epoch, commit_extent_mapping,
  commit_extent_mapping_batch, update_placement_map, register_node, register_disk,
  update_disk_usage, deregister_disk, cleanup_expired_leases, ok, node_registered, disk_registered,
  leases_cleaned_up, node_not_found, volume_exists, volume_not_found, invalid_protection,
  disk_not_found,
}
use blockyard.Metadata.Leases.{apply_lease_request, cleanup_expired}
use blockyard.Metadata.Commit.{forget, commit, commit_batch}

unfoldable pub place_all : Map String (List ℕ) → MetadataState → MetadataState
place_all [] s = s
place_all ((key, nodes) ∷ rest) s =
    place_all rest (record s { placement_map = insert key nodes s.placement_map })

unfoldable pub set_usage : ℕ → ℕ → Option ClusterDisk → MetadataState → Outcome
set_usage disk_id used none s = some (s, MetadataResponse.error disk_not_found)
set_usage disk_id used (some disk) s = some (
  record s { cluster_disks = insert disk_id (record disk { used_bytes = used }) s.cluster_disks },
  disk_registered,
)

unfoldable pub follow : Outcome → (MetadataState → Option MetadataState) → Option MetadataState
follow none next = none
follow (some (s, resp)) next = next s

module _ (to_string : ℕ → String) where
  unfoldable pub put_node : ℕ → String → MetadataState → MetadataState
  put_node node_id addr s = record s {
    nodes = insert (to_string node_id) (record { node_id = node_id; addr = addr }) s.nodes;
  }

  -- `RegisterNode`, on the Raft id that the node has.
  unfoldable pub register : ℕ → String → Option ℕ → MetadataState → Outcome
  unfolding put_node
  register node_id addr (some existing) s = some (put_node node_id addr s, node_registered existing)
  register node_id addr none s =
      let raft_id = wrapping_add s.raft_id_counter 1 in
      some (
        put_node node_id addr (record s {
          raft_id_counter = raft_id;
          node_raft_map = insert node_id raft_id s.node_raft_map;
        }),
        node_registered raft_id,
      )

  unfoldable pub create : ℕ → ℕ → ProtectionPolicy → ℕ → MetadataState → Outcome
  unfolding validate
  create volume_id size_bytes protection extent_size s =
      let key = to_string volume_id in
      if contains_key key s.volumes
      then some (s, MetadataResponse.error volume_exists)
      else elim (validate protection) [
        | some e ↦ some (s, MetadataResponse.error (invalid_protection e))
        | none ↦ some (
          record s {
            volumes =
                insert key
                  (record {
                    volume_id = volume_id;
                    size_bytes = size_bytes;
                    protection = protection;
                    extent_size = extent_size;
                    created_at_epoch = s.epoch;
                  })
                  s.volumes;
            extent_mappings = insert key [] s.extent_mappings;
          },
          ok,
        )
      ]

  -- The loop of `DeleteVolume` over the volume's mappings.
  unfoldable pub forget_all : List ExtentMapping → MetadataState → MetadataState
  unfolding forget
  forget_all [] s = s
  forget_all (m ∷ ms) s = forget_all ms (forget to_string (some m) s)

  unfoldable pub drop_mappings :
      String → Option (Map ℕ ExtentMapping) → MetadataState → MetadataState
  unfolding forget_all
  drop_mappings key none s = s
  drop_mappings key (some mappings) s =
      forget_all (values mappings) (record s { extent_mappings = remove key s.extent_mappings })

  unfoldable pub drop_lease : String → MetadataState → MetadataState
  drop_lease key s = record s { leases = remove key s.leases }

  unfoldable pub delete : ℕ → MetadataState → Outcome
  unfolding drop_mappings drop_lease
  delete volume_id s =
      let key = to_string volume_id in
      if contains_key key s.volumes
      then some (
        drop_lease key (
            drop_mappings key (get key s.extent_mappings)
              (record s { volumes = remove key s.volumes })),
        ok,
      )
      else some (s, MetadataResponse.error volume_not_found)

  unfoldable pub apply_request : MetadataRequest → MetadataState → Outcome
  unfolding put_node create delete commit_batch place_all register set_usage
  apply_request (add_node node_id addr) s = some (put_node node_id addr s, ok)
  apply_request (remove_node node_id) s =
      let key = to_string node_id in
      if contains_key key s.nodes
      then some (record s { nodes = remove key s.nodes }, ok)
      else some (s, MetadataResponse.error node_not_found)
  apply_request (create_volume volume_id size_bytes protection extent_size) s =
      create volume_id size_bytes protection extent_size s
  apply_request (delete_volume volume_id) s = delete volume_id s
  apply_request advance_epoch s =
      let new_val = saturating_add s.epoch 1 in
      some (record s { epoch = new_val }, MetadataResponse.epoch new_val)
  apply_request (commit_extent_mapping r) s = commit to_string r s
  apply_request (commit_extent_mapping_batch rs) s = commit_batch to_string rs s
  apply_request (update_placement_map assignments) s = some (place_all assignments s, ok)
  apply_request (MetadataRequest.lease r) s =
      let (s', resp) = apply_lease_request to_string r s in some (s', MetadataResponse.lease resp)
  apply_request (register_node node_id addr) s =
      register node_id addr (get node_id s.node_raft_map) s
  apply_request (register_disk disk_id node_id capacity) s = some (
    record s {
      cluster_disks =
          insert disk_id
            (record {
              disk_id = disk_id;
              node_id = node_id;
              capacity_bytes = capacity;
              used_bytes = 0;
              state = healthy;
            })
            s.cluster_disks;
    },
    disk_registered,
  )
  apply_request (update_disk_usage disk_id used) s =
      set_usage disk_id used (get disk_id s.cluster_disks) s
  apply_request (deregister_disk disk_id) s =
      if contains_key disk_id s.cluster_disks
      then some (record s { cluster_disks = remove disk_id s.cluster_disks }, disk_registered)
      else some (s, MetadataResponse.error disk_not_found)
  apply_request (cleanup_expired_leases now_ms) s =
      let (s', removed) = cleanup_expired now_ms s in some (s', leases_cleaned_up removed)

  -- The log's requests in order; the responses are dropped.
  unfoldable pub replay : List MetadataRequest → MetadataState → Option MetadataState
  unfolding follow
  replay [] s = some s
  replay (r ∷ rs) s = follow (apply_request r s) (replay rs)
