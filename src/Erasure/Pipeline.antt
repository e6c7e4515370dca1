-- ===== src/Erasure/Pipeline.antt =====
-- crates/blockyard-ublk/src/ec_write_pipeline.rs: a write of the client as a stripe of fragments. The
-- hash of a node for an extent is the argument `score`; what the tasks of a transmission return, in the
-- order in which they end, is the argument `joined`, by the attempt, and the checksum of an ack the
-- argument `checksum_of`. Not modelled: `partial_stripe_write`, which nothing calls.
use blockyard.Common.{
  ℕ-eq, String-eq, ℕ, zero, suc, ◌+◌, ◌/◌, ◌%◌, min, max, String, Option, none, some, List, [], ◌∷◌,
  map, if◌then◌else◌, ltb, length, keep, any,
}
use blockyard.Protection.{ProtectionPolicy, replicated, erasure_coded}
use blockyard.Metadata.State.{BlockRange}
use blockyard.Client.Results.{Result}
use blockyard.Client.Cache.{MetadataCache, CachedVolumeInfo, get_volume, set_extent_mapping_range}
use blockyard.Client.Recovery.{advance}
use blockyard.Client.Pipeline.{
  WriteAck, TaskResult, WriteOutcome, committed, insufficient_acks, stale, PipelineState,
  select_nodes, list_nodes, collect, is_stale, succeeded, refresh_stale, block_size_of,
}
use blockyard.Erasure.Shards.{ReedSolomon}
use blockyard.Erasure.Stripe.{EcStripeError, StripeResult, ok, err, encode_data}

pub data EcWriteError : Type 0 where
  paused volume_not_found not_erasure_coded no_attempt : EcWriteError
  insufficient_nodes : ℕ → ℕ → EcWriteError
  not_encoded : EcStripeError → EcWriteError

pub data EcWriteResult : Type 0 where
  done : WriteOutcome → EcWriteResult
  failed : EcWriteError → EcWriteResult

-- `extent_blocks` of a cached volume, which does not know its extent size.
abbrev pub cached_extent_blocks : CachedVolumeInfo → ℕ
cached_extent_blocks v = 1

-- The number of the extent that a write is stored as.
unfoldable pub written_extent : CachedVolumeInfo → BlockRange → ℕ
written_extent v range = range.start / max (cached_extent_blocks v) 1

-- `select_ec_nodes`: the number of fragments is a sum of bytes.
unfoldable pub select_ec_nodes : (ℕ → ℕ) → List ℕ → ℕ → ℕ → List ℕ
unfolding select_nodes
select_ec_nodes score available_nodes data_chunks parity_chunks =
    select_nodes score available_nodes ((data_chunks + parity_chunks) % 256)

abbrev pub required_acks : ℕ → ℕ → ℕ
required_acks data_chunks parity_chunks = data_chunks + min 1 parity_chunks

abbrev pub node_of : WriteAck → ℕ
node_of ack = ack.node_id

-- What a transmission sends: each fragment to its node.
abbrev pub zip : List ℕ → List (List ℕ) → List (ℕ × List ℕ)
zip [] fs = []
zip (n ∷ ns) [] = []
zip (n ∷ ns) (f ∷ fs) = (n, f) ∷ zip ns fs

abbrev pub or_retry :
    (EcWriteError → PipelineState → PipelineState × EcWriteResult)
    → PipelineState × EcWriteResult
    → PipelineState × EcWriteResult
or_retry next (st, done outcome) = (st, done outcome)
or_retry next (st, failed e) = next e st

module _ (to_string : ℕ → String) (extent_id_for : ℕ → ℕ → ℕ) (checksum_of : WriteAck → List ℕ)
    (refresh_metadata : MetadataCache → MetadataCache × Result ℕ) where
  -- What a write that enough nodes have acknowledged leaves in the cache.
  unfoldable pub cache_stripe :
      ℕ → BlockRange → ℕ → ℕ → List WriteAck → MetadataCache → MetadataCache
  unfolding set_extent_mapping_range get_volume keep
  cache_stripe volume_id range size_bytes extent_num acks c =
      set_extent_mapping_range to_string volume_id range
        (block_size_of (get_volume to_string volume_id c))
        (record {
          extent_id = extent_id_for volume_id extent_num;
          extent_version = 1;
          replica_locations = map node_of (keep succeeded acks);
          checksums = map checksum_of (keep succeeded acks);
          size_bytes = size_bytes;
          extent_offset = 0;
        })
        c

  -- From the acks to the outcome.
  unfoldable pub on_acks :
      ℕ → BlockRange → ℕ → ℕ → ℕ → ℕ → List WriteAck → PipelineState → PipelineState × EcWriteResult
  unfolding refresh_stale cache_stripe advance keep any
  on_acks volume_id range size_bytes extent_num required epoch acks st =
      if any is_stale acks
      then (refresh_stale to_string refresh_metadata epoch st, done stale)
      else (if ltb (length (keep succeeded acks)) required
          then (st, done (insufficient_acks (length (keep succeeded acks)) required))
          else (
            record st {
              shared = advance epoch (record st.shared {
                cache = cache_stripe volume_id range size_bytes extent_num acks st.shared.cache;
              });
            },
            done (committed epoch),
          ))

  module _ (rs : ReedSolomon) where
    -- From the stripe on, which is sent fragment by fragment.
    abbrev pub on_encoded :
        ℕ
        → BlockRange
        → ℕ
        → ℕ
        → ℕ
        → List ℕ
        → (List (ℕ × List ℕ) → List TaskResult)
        → StripeResult (List (List ℕ))
        → PipelineState
        → PipelineState × EcWriteResult
    on_encoded volume_id range size_bytes extent_num required nodes joined (err e) st =
        (st, failed (not_encoded e))
    on_encoded volume_id range size_bytes extent_num required nodes joined (ok fragments) st =
        on_acks volume_id range size_bytes extent_num required st.shared.cache.epoch
          (collect (joined (zip nodes fragments))) st

    abbrev pub on_protection :
        ℕ
        → BlockRange
        → List ℕ
        → ℕ
        → (ℕ → ℕ)
        → (List (ℕ × List ℕ) → List TaskResult)
        → ProtectionPolicy
        → PipelineState
        → PipelineState × EcWriteResult
    on_protection volume_id range data_bytes extent_num score joined (replicated replicas) st =
        (st, failed not_erasure_coded)
    on_protection volume_id range data_bytes extent_num score joined
          (erasure_coded data_chunks parity_chunks) st =
        if ltb (length (list_nodes st.shared.cache)) (data_chunks + parity_chunks)
        then (
          st,
          failed (
              insufficient_nodes (length (list_nodes st.shared.cache))
                (data_chunks + parity_chunks)),
        )
        else on_encoded volume_id range (length data_bytes) extent_num
            (required_acks data_chunks parity_chunks)
            (select_ec_nodes score (list_nodes st.shared.cache) data_chunks parity_chunks) joined
            (encode_data rs data_bytes data_chunks parity_chunks) st

    abbrev pub on_volume :
        ℕ
        → BlockRange
        → List ℕ
        → (ℕ → ℕ → ℕ)
        → (List (ℕ × List ℕ) → List TaskResult)
        → Option CachedVolumeInfo
        → PipelineState
        → PipelineState × EcWriteResult
    on_volume volume_id range data_bytes score joined none st = (st, failed volume_not_found)
    on_volume volume_id range data_bytes score joined (some v) st =
        on_protection volume_id range data_bytes (written_extent v range)
          (score (written_extent v range)) joined v.protection st

    unfoldable pub execute_once :
        ℕ
        → BlockRange
        → List ℕ
        → (ℕ → ℕ → ℕ)
        → (List (ℕ × List ℕ) → List TaskResult)
        → PipelineState
        → PipelineState × EcWriteResult
    unfolding on_acks written_extent select_ec_nodes list_nodes collect encode_data get_volume
    execute_once volume_id range data_bytes score joined st =
        if st.handler.paused
        then (st, failed paused)
        else on_volume volume_id range data_bytes score joined
            (get_volume to_string volume_id st.shared.cache) st

    -- The attempts that remain, from one on, after an error.
    unfoldable pub attempts :
        ℕ
        → BlockRange
        → List ℕ
        → (ℕ → ℕ → ℕ)
        → (ℕ → List (ℕ × List ℕ) → List TaskResult)
        → ℕ
        → ℕ
        → EcWriteError
        → PipelineState
        → PipelineState × EcWriteResult
    unfolding execute_once
    attempts volume_id range data_bytes score joined zero attempt last st = (st, failed last)
    attempts volume_id range data_bytes score joined (suc more) attempt last st =
        or_retry (attempts volume_id range data_bytes score joined more (suc attempt))
          (execute_once volume_id range data_bytes score (joined attempt) st)

    unfoldable pub execute_with_op_id :
        ℕ
        → ℕ
        → BlockRange
        → List ℕ
        → (ℕ → ℕ → ℕ)
        → (ℕ → List (ℕ × List ℕ) → List TaskResult)
        → PipelineState
        → PipelineState × EcWriteResult
    unfolding attempts
    execute_with_op_id max_retries volume_id range data_bytes score joined st =
        attempts volume_id range data_bytes score joined (suc max_retries) 0 no_attempt st
