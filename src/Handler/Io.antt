-- ===== src/Handler/Io.antt =====
-- crates/blockyard-ublk/src/block_handler.rs, `handle_io` with what it calls, and the request of ublk.rs.
-- The extents of a pipeline's write and of a read are numbered as in the code; the tasks' results, the
-- lookups and the data nodes' answers are arguments. An error keeps its kind in place of its text.
use blockyard.Common.{
  ℕ-eq, String-eq, ℕ, zero, suc, ◌+◌, ◌-◌, ◌*◌, String, Option, none, some, is_some, List, [], ◌∷◌,
  ◌++◌, if◌then◌else◌, leb,
}
use blockyard.Protection.{ProtectionPolicy, replicated, erasure_coded}
use blockyard.Client.Results.{ClientError, Result, ok, err}
use blockyard.Client.LeaseManager.{LeaseManager, is_active, check_write_allowed}
use blockyard.Client.Watermark.{is_fresh}
use blockyard.Client.Cache.{MetadataCache, get_node}
use blockyard.Client.Recovery.{CommittedMapping}
use blockyard.Client.Device.{
  WriteRequest, block_range, extent_blocks, split_write, take, block_to_extent, or_zeros,
  read_from_replicas,
}
use blockyard.Client.Pipeline.{
  TaskResult, WriteOutcome, committed, insufficient_acks, stale, WriteError, WriteResult,
  PipelineState, select_nodes, list_nodes,
}
use blockyard.Client.Pipeline
use blockyard.Erasure.Shards.{ReedSolomon}
use blockyard.Erasure.Stripe.{EcStripeError, StripeResult, read_ec_block_data}
use blockyard.Erasure.Pipeline.{EcWriteError, EcWriteResult}
use blockyard.Erasure.Pipeline as EcPipeline

pub data IoOperation : Type 0 where
  read write flush discard : IoOperation

pub record IoRequest : Type 0 where
  pub operation : IoOperation
  pub offset_bytes : ℕ
  pub length_bytes : ℕ
  pub data_bytes : Option (List ℕ)

pub record VolumeConfig : Type 0 where
  pub volume_id : ℕ
  pub size_bytes : ℕ
  pub block_size : ℕ
  pub protection : ProtectionPolicy
  pub extent_size : ℕ

pub data IoError : Type 0 where
  lease_not_active missing_data stale_epoch : IoError
  not_allowed refresh_failed : ClientError → IoError
  insufficient : ℕ → ℕ → IoError
  write_failed : WriteError → IoError
  ec_write_failed : EcWriteError → IoError
  ec_read_failed : EcStripeError → IoError

pub data IoResult : Type 0 where
  done : Option (List ℕ) → IoResult
  failed : IoError → IoResult

-- How one request of a write ends.
pub data ChunkResult : Type 0 where
  outcome : WriteOutcome → ChunkResult
  refused : IoError → ChunkResult

abbrev pub of_pipeline : PipelineState × WriteResult → PipelineState × ChunkResult
of_pipeline (st, WriteResult.done o) = (st, outcome o)
of_pipeline (st, WriteResult.failed e) = (st, refused (write_failed e))

abbrev pub of_ec_pipeline : PipelineState × EcWriteResult → PipelineState × ChunkResult
of_ec_pipeline (st, EcWriteResult.done o) = (st, outcome o)
of_ec_pipeline (st, EcWriteResult.failed e) = (st, refused (ec_write_failed e))

-- The loop of `handle_write` over the requests that it is split into, which do not depend on how the
-- ones before end.
abbrev pub on_chunk :
    (PipelineState → PipelineState × IoResult)
    → PipelineState × ChunkResult
    → PipelineState × IoResult
on_chunk next (st, outcome (committed epoch)) = next st
on_chunk next (st, outcome stale) = (st, failed stale_epoch)
on_chunk next (st, outcome (insufficient_acks acked required)) =
    (st, failed (insufficient acked required))
on_chunk next (st, refused e) = (st, failed e)

unfoldable pub write_chunks :
    (ℕ → WriteRequest → PipelineState → PipelineState × ChunkResult)
    → ℕ
    → List WriteRequest
    → PipelineState
    → PipelineState × IoResult
write_chunks write_chunk i [] st = (st, done none)
write_chunks write_chunk i (r ∷ rs) st =
    on_chunk (write_chunks write_chunk (suc i) rs) (write_chunk i r st)

-- What a block device is given from outside: the identifiers as texts, the placement of an extent, the
-- erasure code, and what the metadata service and the data nodes answer. A write of the device makes
-- requests with an index, of which every attempt gets answers of its own.
pub record Outside : Type 0 where
  pub to_string : ℕ → String
  pub score : ℕ → ℕ → ℕ
  pub extent_id_for : ℕ → ℕ → ℕ
  pub code : ReedSolomon
  pub refresh_metadata : MetadataCache → MetadataCache × Result ℕ
  pub joined : ℕ → ℕ → List ℕ → List TaskResult
  pub lookup_operation : ℕ → ℕ → Result (Option CommittedMapping)
  pub ec_joined : ℕ → ℕ → List (ℕ × List ℕ) → List TaskResult
  pub checksum_of : Pipeline.WriteAck → List ℕ
  -- The part of an extent, from an offset and of a length, that a node returns.
  pub read_extent : ℕ → ℕ → ℕ → ℕ → Option (List ℕ)
  -- The results of the reads of the fragments of an extent from its nodes.
  pub read_fragments : ℕ → List ℕ → List (ℕ × Option (List ℕ))

abbrev pub blocks_of : VolumeConfig → ℕ
blocks_of cfg = extent_blocks cfg.extent_size cfg.block_size

module _ (o : Outside) (cfg : VolumeConfig) where
  -- One request of a write, through the pipeline of the volume's policy.
  abbrev pub chunk_in :
      ProtectionPolicy → ℕ → WriteRequest → PipelineState → PipelineState × ChunkResult
  chunk_in (replicated replicas) i r st = of_pipeline (
      Pipeline.execute_with_op_id o.to_string o.refresh_metadata o.score (o.joined i)
        (o.lookup_operation i) 3 cfg.volume_id (blocks_of cfg) r st)
  chunk_in (erasure_coded data_chunks parity_chunks) i r st = of_ec_pipeline (
      EcPipeline.execute_with_op_id o.to_string o.extent_id_for o.checksum_of o.refresh_metadata
        o.code 3 cfg.volume_id r.block_range r.data_bytes o.score (o.ec_joined i) st)

  unfoldable pub write_chunk : ℕ → WriteRequest → PipelineState → PipelineState × ChunkResult
  unfolding Pipeline.execute_with_op_id EcPipeline.execute_with_op_id extent_blocks
  write_chunk i r st = chunk_in cfg.protection i r st

  abbrev pub on_split :
      Option (List WriteRequest) → PipelineState → Option (PipelineState × IoResult)
  on_split none st = none
  on_split (some rs) st = some (write_chunks write_chunk 0 rs st)

  abbrev pub on_data :
      ℕ → IoRequest → Option (List ℕ) → PipelineState → Option (PipelineState × IoResult)
  on_data fuel q none st = some (st, failed missing_data)
  on_data fuel q (some bytes) st =
      let range = block_range cfg.block_size q.offset_bytes q.length_bytes in
      on_split (split_write fuel (blocks_of cfg) cfg.block_size range.start range.stop bytes) st

  abbrev pub on_allowed :
      ℕ → IoRequest → Result ℕ → PipelineState → Option (PipelineState × IoResult)
  on_allowed fuel q (err e) st = some (st, failed (not_allowed e))
  on_allowed fuel q (ok version) st = on_data fuel q q.data_bytes st

  -- `none` stands for a split that goes on.
  unfoldable pub handle_write :
      ℕ → LeaseManager → IoRequest → PipelineState → Option (PipelineState × IoResult)
  unfolding is_active check_write_allowed split_write write_chunks write_chunk block_range
      extent_blocks
  handle_write fuel lease q st =
      if is_active lease.status
      then on_allowed fuel q (check_write_allowed lease) st
      else some (st, failed lease_not_active)

  -- `read_single_block` and `read_single_block_data`, which differ in the length that they ask for.
  unfoldable pub read_replicated : ℕ → ℕ → ℕ → MetadataCache → List ℕ
  unfolding block_to_extent select_nodes list_nodes read_from_replicas get_node extent_blocks
  read_replicated replicas block_num length_bytes c =
      let (extent_num, block_offset) = block_to_extent block_num (blocks_of cfg) in
      or_zeros length_bytes (
        read_from_replicas (λ (n : ℕ). is_some (get_node o.to_string n c))
          (λ (n : ℕ). o.read_extent extent_num (block_offset * cfg.block_size) length_bytes n)
          (select_nodes (o.score extent_num) (list_nodes c) replicas))

  abbrev pub of_stripe : StripeResult (List ℕ) → IoResult
  of_stripe (StripeResult.ok bytes) = done (some bytes)
  of_stripe (StripeResult.err e) = failed (ec_read_failed e)

  unfoldable pub read_stripe : ℕ → ℕ → ℕ → MetadataCache → StripeResult (List ℕ)
  unfolding select_nodes list_nodes read_ec_block_data extent_blocks
  read_stripe data_chunks parity_chunks block_num c =
      let nodes_of = λ (extent_num : ℕ).
        select_nodes (o.score extent_num) (list_nodes c) (data_chunks + parity_chunks) in
      read_ec_block_data o.code nodes_of
        (λ (extent_num : ℕ). o.read_fragments extent_num (nodes_of extent_num)) cfg.protection
        (blocks_of cfg) block_num cfg.block_size

  abbrev pub read_one : ProtectionPolicy → ℕ → ℕ → MetadataCache → StripeResult (List ℕ)
  read_one (replicated replicas) block_num length_bytes c =
      StripeResult.ok (read_replicated replicas block_num length_bytes c)
  read_one (erasure_coded data_chunks parity_chunks) block_num length_bytes c =
      read_stripe data_chunks parity_chunks block_num c

  abbrev pub prepend : List ℕ → StripeResult (List ℕ) → StripeResult (List ℕ)
  prepend bytes (StripeResult.ok rest) = StripeResult.ok (bytes ++ rest)
  prepend bytes (StripeResult.err e) = StripeResult.err e

  abbrev pub and_then : StripeResult (List ℕ) → StripeResult (List ℕ) → StripeResult (List ℕ)
  and_then (StripeResult.ok bytes) rest = prepend bytes rest
  and_then (StripeResult.err e) rest = StripeResult.err e

  -- The loop over the blocks of a read.
  unfoldable pub read_blocks : ℕ → ℕ → MetadataCache → StripeResult (List ℕ)
  unfolding read_replicated read_stripe
  read_blocks block_num zero c = StripeResult.ok []
  read_blocks block_num (suc count) c =
      and_then (read_one cfg.protection block_num cfg.block_size c)
        (read_blocks (suc block_num) count c)

  abbrev pub truncated : ℕ → StripeResult (List ℕ) → StripeResult (List ℕ)
  truncated n (StripeResult.ok bytes) = StripeResult.ok (take n bytes)
  truncated n (StripeResult.err e) = StripeResult.err e

  -- `handle_read` from the check of the watermark on.
  unfoldable pub read_range : IoRequest → MetadataCache → IoResult
  unfolding read_blocks read_replicated read_stripe block_range take
  read_range q c =
      let range = block_range cfg.block_size q.offset_bytes q.length_bytes in
      if leb (range.stop - range.start) 1
      then of_stripe (read_one cfg.protection range.start q.length_bytes c)
      else of_stripe
          (truncated q.length_bytes (read_blocks range.start (range.stop - range.start) c))

  abbrev pub on_refreshed :
      IoRequest → PipelineState → MetadataCache × Result ℕ → PipelineState × IoResult
  on_refreshed q st (c, err e) =
      (record st { shared = record st.shared { cache = c } }, failed (refresh_failed e))
  on_refreshed q st (c, ok epoch) =
      (record st { shared = record st.shared { cache = c } }, read_range q c)

  unfoldable pub handle_read : IoRequest → PipelineState → PipelineState × IoResult
  unfolding read_range is_fresh
  handle_read q st =
      if is_fresh st.shared.cache.epoch st.shared.watermark
      then (st, read_range q st.shared.cache)
      else on_refreshed q st (o.refresh_metadata st.shared.cache)

  -- `handle_flush` and `handle_discard` do nothing.
  abbrev pub handle_flush : PipelineState → PipelineState × IoResult
  handle_flush st = (st, done none)

  abbrev pub handle_discard : IoRequest → PipelineState → PipelineState × IoResult
  handle_discard q st = (st, done none)

  abbrev pub in_operation :
      ℕ → LeaseManager → IoOperation → IoRequest → PipelineState → Option (PipelineState × IoResult)
  in_operation fuel lease write q st = handle_write fuel lease q st
  in_operation fuel lease read q st = some (handle_read q st)
  in_operation fuel lease flush q st = some (handle_flush st)
  in_operation fuel lease discard q st = some (handle_discard q st)

  unfoldable pub handle_io :
      ℕ → LeaseManager → IoRequest → PipelineState → Option (PipelineState × IoResult)
  unfolding handle_write handle_read
  handle_io fuel lease q st = in_operation fuel lease q.operation q st
