-- ===== src/Erasure/Unaligned.antt =====
-- Where a stripe is stored and where a read of its blocks looks for it
-- (crates/blockyard-ublk/src/ec_write_pipeline.rs and block_handler.rs).
use blockyard.Common.{◌≢◌, ℕ, ◌≡◌, ◌<◌, ◌*◌, ◌/◌, ◌%◌, max, arith, refl, Option, List, sym, ap, ◌∙◌}
use native.Mathlib.Nat.{mul-mod_left, div-add-mod'}
use blockyard.Metadata.State.{BlockRange}
use blockyard.Client.Cache.{CachedVolumeInfo}
use blockyard.Protection.{ProtectionPolicy, replicated, erasure_coded}
use blockyard.Erasure.Shards.{ReedSolomon}
use blockyard.Erasure.Stripe.{aligned_start, read_ec_block_data}
use blockyard.Erasure.Pipeline.{written_extent}

by_one : (n : ℕ) → n / max 1 1 ≡ n
by_one n = omega arith

written_extent-apart :
    (v : CachedVolumeInfo) (range : BlockRange) (extent_blocks block_num : ℕ)
    → 0 < extent_blocks
    → 0 < range.start % extent_blocks
    → aligned_start extent_blocks block_num ≢ written_extent v range
unfolding aligned_start written_extent
written_extent-apart v range extent_blocks block_num pos inner same =
    let at : block_num / extent_blocks * extent_blocks ≡ range.start = same ∙ by_one range.start in
    let whole : range.start % extent_blocks ≡ 0 =
      ap (λ (n : ℕ). n % extent_blocks) (sym at)
      ∙ mul-mod_left (block_num / extent_blocks) extent_blocks in
    omega arith

-- A write that starts at the first block of an extent is stored where a read of a block of that extent
-- looks for it.
pub written_extent-found :
    (v : CachedVolumeInfo) (range : BlockRange) (extent_blocks block_num : ℕ)
    → 0 < extent_blocks
    → range.start % extent_blocks ≡ 0
    → range.start / extent_blocks ≡ block_num / extent_blocks
    → aligned_start extent_blocks block_num ≡ written_extent v range
unfolding aligned_start written_extent
written_extent-found v range extent_blocks block_num pos first same =
    let split = div-add-mod' range.start extent_blocks in
    let at : range.start / extent_blocks * extent_blocks ≡ range.start =
      omega (arith, split, first) in
    ap (λ (q : ℕ). q * extent_blocks) (sym same) ∙ at ∙ sym (by_one range.start)

module _ (rs : ReedSolomon) where
  -- An erasure-coded write that does not start at the first block of an extent is lost: if it changes
  -- what the nodes answer for the extent that it writes to, and for no other, then every block reads
  -- after it as it read before.
  pub written_extent-lost :
      (v : CachedVolumeInfo) (range : BlockRange) (extent_blocks block_num block_size : ℕ)
      (nodes_of : ℕ → List ℕ) (before after : ℕ → List (ℕ × Option (List ℕ)))
      → 0 < extent_blocks
      → 0 < range.start % extent_blocks
      → ((extent : ℕ) → extent ≢ written_extent v range → after extent ≡ before extent)
      → read_ec_block_data rs nodes_of after v.protection extent_blocks block_num block_size
        ≡ read_ec_block_data rs nodes_of before v.protection extent_blocks block_num block_size
  unfolding read_ec_block_data
  written_extent-lost v range extent_blocks block_num block_size nodes_of before after pos inner
        elsewhere =
      same_answers v.protection (
        elsewhere (aligned_start extent_blocks block_num)
          (written_extent-apart v range extent_blocks block_num pos inner))
    where
      same_answers :
          (p : ProtectionPolicy)
          → after (aligned_start extent_blocks block_num)
            ≡ before (aligned_start extent_blocks block_num)
          → read_ec_block_data rs nodes_of after p extent_blocks block_num block_size
            ≡ read_ec_block_data rs nodes_of before p extent_blocks block_num block_size
      same_answers (replicated replicas) same = refl
      same_answers (erasure_coded data_chunks parity_chunks) same = rw same refl
