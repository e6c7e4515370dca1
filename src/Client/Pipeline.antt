-- ===== src/Client/Pipeline.antt =====
-- crates/blockyard-ublk/src/write_pipeline.rs, and `select_nodes` of
-- crates/blockyard-common/src/placement.rs: a write of the client to the replicas of its extent. The
-- hash of a node for an extent is the argument `score`. What the tasks of a transmission return, in
-- the order in which they end, is the argument `joined`, and what the metadata service knows of the
-- operation the argument `lookup_operation`, both by the attempt.
use blockyard.Common.{
  ℕ-eq, String-eq, ℕ, zero, suc, ◌+◌, ◌/◌, ◌%◌, max, String, Bool, true, false, Option, none, some,
  List, [], ◌∷◌, map, if◌then◌else◌, ltb, leb, length, keep, any,
}
use blockyard.Common.Maps.{values}
use blockyard.Protection.{ProtectionPolicy, replicated, erasure_coded}
use blockyard.Client.Results.{Result, ok, err}
use blockyard.Client.Cache.{
  MetadataCache, NodeAddress, CachedVolumeInfo, CachedExtentMapping, get_volume,
  set_extent_mapping_range,
}
use blockyard.Client.Recovery.{
  CommittedMapping, StaleEpochHandler, handle_stale_epoch, Shared, advance,
}
use blockyard.Client.Device.{WriteRequest, take}

pub data WriteAckError : Type 0 where
  stale_epoch disk_unavailable duplicate_operation internal_error : WriteAckError

pub record WriteAck : Type 0 where
  pub node_id : ℕ
  pub success : Bool
  pub error : Option WriteAckError

-- A task that has panicked, or the result of its call for a node.
pub data TaskResult : Type 0 where
  panicked : TaskResult
  returned : ℕ → Result WriteAck → TaskResult

pub data WriteOutcome : Type 0 where
  committed : ℕ → WriteOutcome
  insufficient_acks : ℕ → ℕ → WriteOutcome
  stale : WriteOutcome

pub data WriteError : Type 0 where
  paused volume_not_found no_replica_nodes no_attempt : WriteError

pub data WriteResult : Type 0 where
  done : WriteOutcome → WriteResult
  failed : WriteError → WriteResult

-- What the pipeline shares with the rest of the client.
pub record PipelineState : Type 0 where
  pub shared : Shared
  pub handler : StaleEpochHandler

-- `sort_by_key`, which is stable.
unfoldable pub insert_by : (ℕ → ℕ) → ℕ → List ℕ → List ℕ
insert_by key n [] = n ∷ []
insert_by key n (m ∷ ms) = if leb (key n) (key m) then n ∷ m ∷ ms else m ∷ insert_by key n ms

unfoldable pub sort_by_key : (ℕ → ℕ) → List ℕ → List ℕ
unfolding insert_by
sort_by_key key [] = []
sort_by_key key (n ∷ ns) = insert_by key n (sort_by_key key ns)

unfoldable pub select_nodes : (ℕ → ℕ) → List ℕ → ℕ → List ℕ
unfolding sort_by_key take
select_nodes score available_nodes count =
    if leb (length available_nodes) count
    then available_nodes
    else take count (sort_by_key score available_nodes)

-- How many nodes a policy writes to.
unfoldable pub total_nodes : ProtectionPolicy → ℕ
total_nodes (replicated replicas) = replicas
total_nodes (erasure_coded data_chunks parity_chunks) = (data_chunks + parity_chunks) % 256

unfoldable pub required_acks : ProtectionPolicy → ℕ
required_acks (replicated replicas) = if ltb 1 replicas then replicas / 2 + 1 else replicas
required_acks (erasure_coded data_chunks parity_chunks) = (data_chunks + parity_chunks) % 256

unfoldable pub list_nodes : MetadataCache → List ℕ
unfolding values
list_nodes c = map (λ (n : NodeAddress). n.node_id) (values c.cluster_map)

abbrev pub ack_of : ℕ → Result WriteAck → WriteAck
ack_of node (ok ack) = ack
ack_of node (err e) = record { node_id = node; success = false; error = some internal_error }

-- The acks that `transmit_to_replicas` collects.
unfoldable pub collect : List TaskResult → List WriteAck
collect [] = []
collect (panicked ∷ rs) = collect rs
collect (returned node r ∷ rs) = ack_of node r ∷ collect rs

abbrev pub is_stale_error : Option WriteAckError → Bool
is_stale_error (some stale_epoch) = true
is_stale_error _ = false

abbrev pub is_stale : WriteAck → Bool
is_stale ack = is_stale_error ack.error

abbrev pub succeeded : WriteAck → Bool
succeeded ack = ack.success

abbrev pub block_size_of : Option CachedVolumeInfo → ℕ
block_size_of none = 4096
block_size_of (some v) = v.block_size

-- What an attempt learns of an earlier one: the first attempt does not ask.
abbrev pub found_in : Result (Option CommittedMapping) → Option CommittedMapping
found_in (ok found) = found
found_in (err e) = none

abbrev pub earlier : (ℕ → Result (Option CommittedMapping)) → ℕ → Option CommittedMapping
earlier lookup_operation zero = none
earlier lookup_operation (suc attempt) = found_in (lookup_operation (suc attempt))

abbrev pub or_retry :
    (WriteError → PipelineState → PipelineState × WriteResult)
    → PipelineState × WriteResult
    → PipelineState × WriteResult
or_retry next (st, done outcome) = (st, done outcome)
or_retry next (st, failed e) = next e st

module _ (to_string : ℕ → String)
    (refresh_metadata : MetadataCache → MetadataCache × Result ℕ) where
  unfoldable pub refresh_stale : ℕ → PipelineState → PipelineState
  unfolding handle_stale_epoch
  refresh_stale epoch st =
      let ((h, c), _) = handle_stale_epoch refresh_metadata epoch (st.handler, st.shared.cache) in
      record { shared = record st.shared { cache = c }; handler = h }

  -- From the acks to the outcome.
  unfoldable pub on_acks : ℕ → ℕ → List WriteAck → PipelineState → PipelineState × WriteResult
  unfolding refresh_stale advance keep any
  on_acks required epoch acks st =
      if any is_stale acks
      then (refresh_stale epoch st, done stale)
      else (if ltb (length (keep succeeded acks)) required
          then (st, done (insufficient_acks (length (keep succeeded acks)) required))
          else (record st { shared = advance epoch st.shared }, done (committed epoch)))

  unfoldable pub on_nodes :
      List ℕ → (List ℕ → List TaskResult) → ℕ → ℕ → PipelineState → PipelineState × WriteResult
  unfolding on_acks collect
  on_nodes [] joined required epoch st = (st, failed no_replica_nodes)
  on_nodes (n ∷ ns) joined required epoch st = on_acks required epoch (collect (joined (n ∷ ns))) st

  unfoldable pub on_volume :
      Option CachedVolumeInfo
      → (ℕ → ℕ → ℕ)
      → (List ℕ → List TaskResult)
      → ℕ
      → PipelineState
      → PipelineState × WriteResult
  unfolding on_nodes select_nodes total_nodes required_acks list_nodes
  on_volume none score joined extent_num st = (st, failed volume_not_found)
  on_volume (some v) score joined extent_num st =
      on_nodes
        (select_nodes (score extent_num) (list_nodes st.shared.cache) (total_nodes v.protection))
        joined (required_acks v.protection) st.shared.cache.epoch st

  unfoldable pub execute_once :
      (ℕ → ℕ → ℕ)
      → (List ℕ → List TaskResult)
      → ℕ
      → ℕ
      → WriteRequest
      → PipelineState
      → PipelineState × WriteResult
  unfolding on_volume get_volume
  execute_once score joined volume_id extent_blocks request st =
      if st.handler.paused
      then (st, failed paused)
      else on_volume (get_volume to_string volume_id st.shared.cache) score joined
          (request.block_range.start / max extent_blocks 1) st

  -- What a retry records of an earlier attempt that was committed.
  unfoldable pub record_committed :
      ℕ → WriteRequest → CommittedMapping → PipelineState → PipelineState
  unfolding advance set_extent_mapping_range get_volume
  record_committed volume_id request m st =
      let s = advance m.epoch st.shared in
      let base : CachedExtentMapping = record {
        extent_id = m.extent_id;
        extent_version = m.extent_version;
        replica_locations = m.replica_locations;
        checksums = m.checksums;
        size_bytes = length request.data_bytes;
        extent_offset = 0;
      } in
      record st {
        shared = record s {
          cache =
              set_extent_mapping_range to_string volume_id request.block_range
                (block_size_of (get_volume to_string volume_id s.cache)) base s.cache;
        };
      }

  abbrev pub or_attempt :
      ℕ
      → WriteRequest
      → Option CommittedMapping
      → PipelineState
      → PipelineState × WriteResult
      → PipelineState × WriteResult
  or_attempt volume_id request none st next = next
  or_attempt volume_id request (some m) st next =
      (record_committed volume_id request m st, done (committed m.epoch))

  -- The attempts that remain, from one on, after an error.
  unfoldable pub attempts :
      (ℕ → ℕ → ℕ)
      → (ℕ → List ℕ → List TaskResult)
      → (ℕ → Result (Option CommittedMapping))
      → ℕ
      → ℕ
      → WriteRequest
      → ℕ
      → ℕ
      → WriteError
      → PipelineState
      → PipelineState × WriteResult
  unfolding execute_once record_committed
  attempts score joined lookup_operation volume_id extent_blocks request zero attempt last st =
      (st, failed last)
  attempts score joined lookup_operation volume_id extent_blocks request (suc more) attempt last
        st =
      or_attempt volume_id request (earlier lookup_operation attempt) st (
        or_retry
          (attempts score joined lookup_operation volume_id extent_blocks request more
            (suc attempt))
          (execute_once score (joined attempt) volume_id extent_blocks request st))

  unfoldable pub execute_with_op_id :
      (ℕ → ℕ → ℕ)
      → (ℕ → List ℕ → List TaskResult)
      → (ℕ → Result (Option CommittedMapping))
      → ℕ
      → ℕ
      → ℕ
      → WriteRequest
      → PipelineState
      → PipelineState × WriteResult
  unfolding attempts
  execute_with_op_id score joined lookup_operation max_retries volume_id extent_blocks request st =
      attempts score joined lookup_operation volume_id extent_blocks request (suc max_retries) 0
        no_attempt st
