-- ===== src/Client/Device.antt =====
-- crates/blockyard-ublk/src/block_handler.rs and ublk.rs, and crates/blockyard-common/src/placement.rs:
-- how a write of the block device is split at the ends of extents, and where a read looks for a
-- block. A byte is a number.
use blockyard.Common.{
  ℕ, zero, suc, Bool, ◌+◌, ◌-◌, ◌*◌, ◌/◌, ◌%◌, min, max, Option, none, some, List, [], ◌∷◌,
  if◌then◌else◌, ltb, length,
}
use blockyard.Metadata.State.{BlockRange}
use blockyard.Client.Cache.{div_ceil}
use blockyard.Storage.Service.Read.{ReadExtentRequest, drop, zeros}

-- `block_range` of a request of the kernel.
unfoldable pub block_range : ℕ → ℕ → ℕ → BlockRange
unfolding div_ceil
block_range block_size offset_bytes length_bytes = record {
  start = offset_bytes / block_size;
  stop = div_ceil (offset_bytes + length_bytes) block_size;
}

unfoldable pub extent_blocks : ℕ → ℕ → ℕ
extent_blocks extent_size block_size = max (extent_size / max block_size 1) 1

-- `block_to_extent`: the extent of a block, and the block's place in it.
unfoldable pub block_to_extent : ℕ → ℕ → ℕ × ℕ
block_to_extent block_num extent_blocks =
    (block_num / max extent_blocks 1, block_num % max extent_blocks 1)

pub record WriteRequest : Type 0 where
  pub block_range : BlockRange
  pub data_bytes : List ℕ

unfoldable pub take : ℕ → List ℕ → List ℕ
take zero xs = []
take (suc n) [] = []
take (suc n) (x ∷ xs) = x ∷ take n xs

abbrev pub then_rest : WriteRequest → Option (List WriteRequest) → Option (List WriteRequest)
then_rest r none = none
then_rest r (some rs) = some (r ∷ rs)

-- The loop of `handle_write`: the requests that it makes from a block on, with the data that is left.
-- `none` stands for a loop that goes on.
unfoldable pub split_write : ℕ → ℕ → ℕ → ℕ → ℕ → List ℕ → Option (List WriteRequest)
unfolding take drop
split_write zero extent_blocks block_size current_block stop data_bytes = none
split_write (suc fuel) extent_blocks block_size current_block stop data_bytes =
    let next_extent_start = (current_block / extent_blocks + 1) * extent_blocks in
    let end_block = min next_extent_start stop in
    let byte_len = min ((end_block - current_block) * block_size) (length data_bytes) in
    let rest =
      split_write fuel extent_blocks block_size end_block stop (drop byte_len data_bytes) in
    if ltb current_block stop
    then then_rest
        (record {
          block_range = record { start = current_block; stop = end_block };
          data_bytes = take byte_len data_bytes;
        })
        rest
    else some []

-- The part of an extent that `read_single_block_data` asks a data node for.
unfoldable pub block_read : ℕ → ℕ → ℕ → ReadExtentRequest → ReadExtentRequest
unfolding block_to_extent
block_read extent_blocks block_size block_num r =
    let (extent_num, block_offset) = block_to_extent block_num extent_blocks in
    record r { offset = block_offset * block_size; length = block_size }

abbrev pub or_next : Option (List ℕ) → Option (List ℕ) → Option (List ℕ)
or_next none next = next
or_next (some found) next = some found

abbrev pub or_zeros : ℕ → Option (List ℕ) → List ℕ
or_zeros block_size none = zeros block_size
or_zeros block_size (some found) = found

-- `read_from_replicas`: the data of the first known node that answers. An error keeps no text.
unfoldable pub read_from_replicas : (ℕ → Bool) → (ℕ → Option (List ℕ)) → List ℕ → Option (List ℕ)
read_from_replicas is_known read_extent [] = none
read_from_replicas is_known read_extent (node ∷ nodes) =
    let rest = read_from_replicas is_known read_extent nodes in
    if is_known node then or_next (read_extent node) rest else rest

-- `read_single_block_data`, by the nodes that hold the extent and what they answer.
unfoldable pub read_single_block_data : (ℕ → Bool) → (ℕ → Option (List ℕ)) → List ℕ → ℕ → List ℕ
unfolding read_from_replicas zeros
read_single_block_data is_known read_extent nodes block_size =
    or_zeros block_size (read_from_replicas is_known read_extent nodes)
