-- ===== src/Erasure/Stripe.antt =====
-- crates/blockyard-ublk/src/ec_write_pipeline.rs, `encode_data`, and block_handler.rs,
-- `read_ec_block_data`: a stripe of fragments, one on each of its nodes.
use blockyard.Common.{
  ℕ, zero, suc, ◌+◌, ◌-◌, ◌*◌, ◌/◌, min, Option, none, some, List, [], ◌∷◌, ◌++◌, if◌then◌else◌,
  leb, nat_eq, length,
}
use blockyard.Common.Slots.{set_fragment, no_fragments, available_count}
use blockyard.Protection.{ProtectionPolicy, replicated, erasure_coded}
use blockyard.Client.Device.{take}
use blockyard.Client.Cache.{div_ceil}
use blockyard.Storage.Service.Read.{zeros, drop, resize}
use blockyard.Erasure.Shards.{ReedSolomon, data_shards, parity_shards}

pub data EcStripeError : Type 0 where
  empty_data invalid_parameters encoding_failed not_erasure_coded reconstruction_failed :
      EcStripeError

pub data StripeResult (A : Type 0) : Type 0 where
  ok : A → StripeResult A
  err : EcStripeError → StripeResult A

abbrev pub encoded : Option (List (List ℕ)) → StripeResult (List (List ℕ))
encoded none = err encoding_failed
encoded (some shards) = ok shards

-- What the tasks of the reads return, in the order in which they end: the data of a fragment. A task
-- that has panicked returns nothing.
unfoldable pub collect_shards :
    List (ℕ × Option (List ℕ)) → List (Option (List ℕ)) → List (Option (List ℕ))
unfolding set_fragment
collect_shards [] shards = shards
collect_shards ((frag_idx, none) ∷ results) shards = collect_shards results shards
collect_shards ((frag_idx, some bytes) ∷ results) shards =
    collect_shards results (set_fragment frag_idx bytes shards)

-- The data of the first shards, without those that are not there.
unfoldable pub join_present : ℕ → List (Option (List ℕ)) → List ℕ
join_present zero shards = []
join_present (suc count) [] = []
join_present (suc count) (none ∷ shards) = join_present count shards
join_present (suc count) (some shard ∷ shards) = shard ++ join_present count shards

-- The block of the data of a stripe.
unfoldable pub block_of : ℕ → ℕ → List ℕ → List ℕ
unfolding zeros take drop resize
block_of block_offset block_size reconstructed =
    let offset = block_offset * block_size in
    let stop = min (offset + block_size) (length reconstructed) in
    if leb (length reconstructed) offset
    then zeros block_size
    else resize block_size (take (stop - offset) (drop offset reconstructed))

abbrev pub rebuilt : ℕ → ℕ → ℕ → Option (List (Option (List ℕ))) → StripeResult (List ℕ)
rebuilt data_chunks block_offset block_size none = err reconstruction_failed
rebuilt data_chunks block_offset block_size (some shards) =
    ok (block_of block_offset block_size (join_present data_chunks shards))

-- The extent that `read_ec_block_data` looks for: the first block of the block's extent.
unfoldable pub aligned_start : ℕ → ℕ → ℕ
aligned_start extent_blocks block_num = block_num / extent_blocks * extent_blocks

module _ (rs : ReedSolomon) where
  unfoldable pub encode_data : List ℕ → ℕ → ℕ → StripeResult (List (List ℕ))
  unfolding data_shards parity_shards div_ceil
  encode_data [] data_chunks parity_chunks = err empty_data
  encode_data (b ∷ bs) data_chunks parity_chunks =
      let frag_size = div_ceil (length (b ∷ bs)) data_chunks in
      if rs.accepts data_chunks parity_chunks
      then encoded (
          rs.encode data_chunks parity_chunks
            (data_shards frag_size (b ∷ bs) 0 data_chunks ++ parity_shards frag_size parity_chunks))
      else err invalid_parameters

  -- From the shards that were read on.
  unfoldable pub read_shards : ℕ → ℕ → ℕ → ℕ → List (Option (List ℕ)) → StripeResult (List ℕ)
  unfolding available_count join_present block_of zeros
  read_shards data_chunks parity_chunks block_offset block_size shards =
      if nat_eq (available_count shards) 0
      then ok (zeros block_size)
      else (if rs.accepts data_chunks parity_chunks
          then rebuilt data_chunks block_offset block_size
              (rs.reconstruct data_chunks parity_chunks shards)
          else err invalid_parameters)

  abbrev pub on_nodes : ℕ → ℕ → ℕ → ℕ → List (ℕ × Option (List ℕ)) → List ℕ → StripeResult (List ℕ)
  on_nodes data_chunks parity_chunks block_offset block_size results [] = ok (zeros block_size)
  on_nodes data_chunks parity_chunks block_offset block_size results (n ∷ ns) =
      read_shards data_chunks parity_chunks block_offset block_size
        (collect_shards results (no_fragments (data_chunks + parity_chunks)))

  -- By the nodes that are selected for an extent and the results of the reads from them.
  unfoldable pub read_ec_block_data :
      (ℕ → List ℕ)
      → (ℕ → List (ℕ × Option (List ℕ)))
      → ProtectionPolicy
      → ℕ
      → ℕ
      → ℕ
      → StripeResult (List ℕ)
  unfolding aligned_start read_shards collect_shards no_fragments zeros
  read_ec_block_data nodes_of results_of (replicated replicas) extent_blocks block_num block_size =
      err not_erasure_coded
  read_ec_block_data nodes_of results_of (erasure_coded data_chunks parity_chunks) extent_blocks
        block_num block_size =
      let start = aligned_start extent_blocks block_num in
      on_nodes data_chunks parity_chunks (block_num - start) block_size (results_of start)
        (nodes_of start)
