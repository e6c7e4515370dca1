-- ===== src/Erasure/Shards.antt =====
-- How data are cut into shards (crates/blockyard-client/src/ec.rs). A byte is a number.
use blockyard.Common.{
  ℕ, zero, suc, ◌+◌, ◌-◌, ◌*◌, min, Bool, Option, none, some, List, [], ◌∷◌, ◌++◌, if◌then◌else◌,
  ltb, length,
}
use blockyard.Client.Device.{take}
use blockyard.Storage.Service.Read.{zeros, drop}

-- The crate `reed_solomon_erasure`: whether it accepts the numbers of data and parity shards, the
-- parity of shards, and the reconstruction of the shards that are missing.
pub record ReedSolomon : Type 0 where
  pub accepts : ℕ → ℕ → Bool
  pub encode : ℕ → ℕ → List (List ℕ) → Option (List (List ℕ))
  pub reconstruct : ℕ → ℕ → List (Option (List ℕ)) → Option (List (Option (List ℕ)))

-- A data shard: its part of the data, padded with zeros.
unfoldable pub data_shard : ℕ → List ℕ → ℕ → List ℕ
unfolding take zeros drop
data_shard frag_size data_bytes i =
    let start = i * frag_size in
    let stop = min (start + frag_size) (length data_bytes) in
    if ltb start (length data_bytes)
    then take (stop - start) (drop start data_bytes) ++ zeros (frag_size - (stop - start))
    else zeros frag_size

-- The shards from one on, so many of them.
unfoldable pub data_shards : ℕ → List ℕ → ℕ → ℕ → List (List ℕ)
unfolding data_shard
data_shards frag_size data_bytes i zero = []
data_shards frag_size data_bytes i (suc count) =
    data_shard frag_size data_bytes i ∷ data_shards frag_size data_bytes (suc i) count

unfoldable pub parity_shards : ℕ → ℕ → List (List ℕ)
unfolding zeros
parity_shards frag_size zero = []
parity_shards frag_size (suc count) = zeros frag_size ∷ parity_shards frag_size count

abbrev pub append_rest : List ℕ → Option (List ℕ) → Option (List ℕ)
append_rest shard none = none
append_rest shard (some rest) = some (shard ++ rest)

-- The data of the first shards, one after the other, where every one of them is there.
unfoldable pub join_shards : ℕ → List (Option (List ℕ)) → Option (List ℕ)
join_shards zero shards = some []
join_shards (suc count) [] = some []
join_shards (suc count) (none ∷ shards) = none
join_shards (suc count) (some shard ∷ shards) = append_rest shard (join_shards count shards)
