-- ===== src/Metadata/State.antt =====
-- crates/blockyard-raft/src/state_machine.rs, request.rs and response.rs: the data of the metadata
-- state machine, its requests and its responses. `last_applied` and `last_membership`, which only
-- the Raft stores write, are left out. An error keeps its kind in place of the formatted text.
use blockyard.Common.{
  ℕ-eq, String-eq, ℕ, String, Bool, true, false, List, [], ◌∷◌, nat_eq, if◌then◌else◌, Option, none,
  some,
}
use blockyard.Common.Maps.{Map, get}
use blockyard.Lease.{VolumeLease, LeaseRequest, LeaseResponse}
use blockyard.Protection.{ProtectionPolicy, PolicyError}
use blockyard.DiskState.{DiskState}

pub record VolumeMetadata : Type 0 where
  pub volume_id : ℕ
  pub size_bytes : ℕ
  pub protection : ProtectionPolicy
  pub extent_size : ℕ
  pub created_at_epoch : ℕ

pub record BlockRange : Type 0 where
  pub start : ℕ
  pub stop : ℕ

pub record ExtentMapping : Type 0 where
  pub extent_id : ℕ
  pub extent_version : ℕ
  pub epoch : ℕ
  pub block_range : BlockRange
  pub replica_locations : List ℕ
  pub checksums : List (List ℕ)
  pub operation_id : Option ℕ

pub record ClusterNode : Type 0 where
  pub node_id : ℕ
  pub addr : String

pub record ClusterDisk : Type 0 where
  pub disk_id : ℕ
  pub node_id : ℕ
  pub capacity_bytes : ℕ
  pub used_bytes : ℕ
  pub state : DiskState

-- The volume key and the first block of a mapping.
abbrev pub Location : Type 0
Location = String × ℕ

pub record MetadataState : Type 0 where
  pub epoch : ℕ
  pub nodes : Map String ClusterNode
  pub volumes : Map String VolumeMetadata
  pub extent_mappings : Map String (Map ℕ ExtentMapping)
  pub operation_index : Map String Location
  pub extent_version_index : Map ℕ Location
  pub placement_map : Map String (List ℕ)
  pub leases : Map String VolumeLease
  pub lease_version_counter : ℕ
  pub raft_id_counter : ℕ
  pub node_raft_map : Map ℕ ℕ
  pub cluster_disks : Map ℕ ClusterDisk

abbrev pub initial : MetadataState
initial = record {
  epoch = 0;
  nodes = [];
  volumes = [];
  extent_mappings = [];
  operation_index = [];
  extent_version_index = [];
  placement_map = [];
  leases = [];
  lease_version_counter = 0;
  raft_id_counter = 0;
  node_raft_map = [];
  cluster_disks = [];
}

pub record ExtentMappingEntry : Type 0 where
  pub volume_id : ℕ
  pub block_range : BlockRange
  pub extent_id : ℕ
  pub extent_version : ℕ
  pub epoch : ℕ
  pub replica_locations : List ℕ
  pub checksums : List (List ℕ)
  pub operation_id : Option ℕ
  pub previous_version : Option ℕ

pub data MetadataRequest : Type 0 where
  add_node : ℕ → String → MetadataRequest
  remove_node : ℕ → MetadataRequest
  create_volume : ℕ → ℕ → ProtectionPolicy → ℕ → MetadataRequest
  delete_volume : ℕ → MetadataRequest
  advance_epoch : MetadataRequest
  commit_extent_mapping : ExtentMappingEntry → MetadataRequest
  commit_extent_mapping_batch : List ExtentMappingEntry → MetadataRequest
  update_placement_map : Map String (List ℕ) → MetadataRequest
  lease : LeaseRequest → MetadataRequest
  register_node : ℕ → String → MetadataRequest
  register_disk : ℕ → ℕ → ℕ → MetadataRequest
  update_disk_usage : ℕ → ℕ → MetadataRequest
  deregister_disk : ℕ → MetadataRequest
  cleanup_expired_leases : ℕ → MetadataRequest

pub data MetadataError : Type 0 where
  node_not_found volume_exists volume_not_found stale_epoch : MetadataError
  invalid_protection : PolicyError → MetadataError
  cas_mismatch cas_missing : MetadataError
  disk_not_found : MetadataError

pub data MetadataResponse : Type 0 where
  ok : MetadataResponse
  epoch : ℕ → MetadataResponse
  error : MetadataError → MetadataResponse
  lease : LeaseResponse → MetadataResponse
  node_registered : ℕ → MetadataResponse
  disk_registered : MetadataResponse
  leases_cleaned_up : ℕ → MetadataResponse

unfoldable pub is_error : MetadataResponse → Bool
is_error (error e) = true
is_error ok = false
is_error (epoch e) = false
is_error (lease r) = false
is_error (node_registered n) = false
is_error disk_registered = false
is_error (leases_cleaned_up n) = false

-- The next state and the response; `none` is a panic.
abbrev pub Outcome : Type 0
Outcome = Option (MetadataState × MetadataResponse)

-- `extent_mappings.get(vol_key)?.get(block_start)`.
unfoldable pub mapping_in : Map String (Map ℕ ExtentMapping) → String → ℕ → Option ExtentMapping
mapping_in volumes vol_key block_start = elim (get vol_key volumes) [
  | none ↦ none
  | some mappings ↦ get block_start mappings
]

abbrev pub mapping_at : MetadataState → String → ℕ → Option ExtentMapping
mapping_at s = mapping_in s.extent_mappings

unfoldable pub lookup_at : MetadataState → Option Location → Option ExtentMapping
lookup_at s none = none
lookup_at s (some (vol_key, block_start)) = mapping_at s vol_key block_start

unfoldable pub lookup_by_extent_version : MetadataState → ℕ → Option ExtentMapping
unfolding lookup_at
lookup_by_extent_version s version = lookup_at s (get version s.extent_version_index)

-- `to_string` renders a UUID.
module _ (to_string : ℕ → String) where
  unfoldable pub lookup_by_operation_id : MetadataState → ℕ → Option ExtentMapping
  unfolding lookup_at
  lookup_by_operation_id s op_id = lookup_at s (get (to_string op_id) s.operation_index)

  unfoldable pub get_volume : MetadataState → ℕ → Option VolumeMetadata
  get_volume s volume_id = get (to_string volume_id) s.volumes

  unfoldable pub get_node : MetadataState → ℕ → Option ClusterNode
  get_node s node_id = get (to_string node_id) s.nodes

  unfoldable pub get_lease : MetadataState → ℕ → Option VolumeLease
  get_lease s volume_id = get (to_string volume_id) s.leases

unfoldable pub get_raft_id : MetadataState → ℕ → Option ℕ
get_raft_id s node_id = get node_id s.node_raft_map

-- `node_raft_map.iter().find(|&(_, &v)| v == raft_id)`.
unfoldable pub find_id : ℕ → Map ℕ ℕ → Option ℕ
find_id raft_id [] = none
find_id raft_id ((k, v) ∷ m) = if nat_eq v raft_id then some k else find_id raft_id m

unfoldable pub get_node_id_by_raft_id : MetadataState → ℕ → Option ℕ
unfolding find_id
get_node_id_by_raft_id s raft_id = find_id raft_id s.node_raft_map

unfoldable pub get_cluster_disk : MetadataState → ℕ → Option ClusterDisk
get_cluster_disk s disk_id = get disk_id s.cluster_disks
