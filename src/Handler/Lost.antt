-- ===== src/Handler/Lost.antt =====
-- A block that the block device writes to a data node and does not read back
-- (crates/blockyard-ublk/src/block_handler.rs and crates/blockyard-storage/src/service.rs).
use blockyard.Common.{
  ℕ-eq, ℕ, suc, ◌≡◌, ◌≤◌, ◌<◌, ◌+◌, ◌-◌, ◌*◌, ◌/◌, min, refl, sym, ap, ◌∙◌, String, true, false,
  Option, none, some, List, [], ◌∷◌, ltb, length, arith,
}
use mathlib.Core.Path.{subst}
use blockyard.Common.Maps.{Map}
use blockyard.Client.Device.{WriteRequest, take, split_write, block_to_extent, block_read}
use blockyard.Client.Chunks.{read_back-lost}
use blockyard.Storage.Acl.{PeerIdentity, check_read}
use blockyard.Storage.Service.{
  OperationRecord, WriteExtentRequest, DataNodeService, check_duplicate,
}
use blockyard.Storage.Service.Disk.{Faults}
use blockyard.Storage.Service.Write.{handle_write}
use blockyard.Storage.Service.Read.{
  ReadExtentRequest, zeros, validate_epoch_for_read, read_completed, handle_read,
}
use blockyard.Storage.Service.ReadBack.{Registered, handle_write-handle_read}

take-whole : (xs : List ℕ) → take (length xs) xs ≡ xs
unfolding take
take-whole [] = refl
take-whole (x ∷ xs) = ap (λ (ys : List ℕ). x ∷ ys) (take-whole xs)

below_next : (n d : ℕ) → 0 < d → n < (n / d + 1) * d
below_next n d pos = grind arith

abbrev first_data : Option (List WriteRequest) → List ℕ
first_data none = []
first_data (some []) = []
first_data (some (r ∷ rs)) = r.data_bytes

-- A write of one block is sent as it is.
split_one :
    (extent_blocks block_size block_num : ℕ) (data_bytes : List ℕ)
    → 0 < extent_blocks
    → length data_bytes ≤ block_size
    → split_write 2 extent_blocks block_size block_num (suc block_num) data_bytes
      ≡ some (
          (record {
            block_range = record { start = block_num; stop = suc block_num };
            data_bytes = data_bytes;
          })
          ∷ [])
unfolding split_write
split_one extent_blocks block_size block_num data_bytes pos fits =
    let after = below_next block_num extent_blocks pos in
    let to : min ((block_num / extent_blocks + 1) * extent_blocks) (suc block_num) ≡ suc block_num =
      omega arith in
    let one : suc block_num - block_num ≡ 1 = omega arith in
    let count : min (1 * block_size) (length data_bytes) ≡ length data_bytes = omega arith in
    let more : ltb block_num (suc block_num) ≡ true = ground arith in
    let over : ltb (suc block_num) (suc block_num) ≡ false = ground arith in
    rw (to, one, count, more, over, take-whole data_bytes) refl

module _ (compute_checksum : List ℕ → ℕ) (iteration : Map ℕ OperationRecord → List ℕ)
    (generated now : ℕ) (to_string : PeerIdentity → String) where
  -- A block that is not the first of its extent is lost when it is written by itself: the device makes
  -- one request of the write, and after a data node has completed this request as a new operation, the
  -- read that the device makes of the block (of the same extent and version, by a reader that may read
  -- and in a fresh epoch) succeeds with zeros.
  pub block_write-lost :
      (extent_blocks block_size block_num : ℕ) (data_bytes : List ℕ) (chunk : WriteRequest)
      (chunks : List WriteRequest) (faults : Faults) (r : WriteExtentRequest)
      (caller : PeerIdentity) (q : ReadExtentRequest) (reader : PeerIdentity) (s : DataNodeService)
      → 0 < extent_blocks
      → 0 < block_size
      → 0 < (block_to_extent block_num extent_blocks).1
      → length data_bytes ≤ block_size
      → split_write 2 extent_blocks block_size block_num (suc block_num) data_bytes
        ≡ some (chunk ∷ chunks)
      → Registered s
      → check_duplicate r.operation_id s ≡ none
      → (handle_write compute_checksum iteration generated now to_string faults r chunk.data_bytes
          caller s).1.success
        ≡ true
      → q.extent_id ≡ r.extent_id
      → q.extent_version ≡ r.extent_version
      → check_read to_string q.volume_id reader s.volume_acl ≡ true
      → validate_epoch_for_read q.epoch s ≡ none
      → let t =
          (handle_write compute_checksum iteration generated now to_string faults r chunk.data_bytes
            caller s).0 in
        let (response, data') =
          (handle_read to_string compute_checksum
            (block_read extent_blocks block_size block_num q)
            reader
            t).1 in
        (response.success ≡ true) × (data' ≡ some (zeros block_size))
  unfolding block_read read_completed
  block_write-lost extent_blocks block_size block_num data_bytes chunk chunks faults r caller q
        reader s pos size later fits split registered first done same_id same_version may fresh =
      let sent : chunk.data_bytes ≡ data_bytes =
        ap first_data
          (sym split ∙ split_one extent_blocks block_size block_num data_bytes pos fits) in
      let short : length chunk.data_bytes ≤ block_size =
        subst (λ (xs : List ℕ). length xs ≤ block_size) (sym sent) fits in
      let answer =
        handle_write-handle_read compute_checksum iteration generated now to_string faults r
          chunk.data_bytes caller (block_read extent_blocks block_size block_num q) reader s
          registered first done same_id same_version may fresh in
      rw answer (
        refl,
        ap some
            (read_back-lost extent_blocks block_size block_num q chunk.data_bytes size later short),
      )
