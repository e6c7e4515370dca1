-- ===== src/Erasure/Codec.antt =====
-- `ErasureCodec` of crates/blockyard-client/src/ec.rs.
use blockyard.Common.{
  ℕ, suc, ◌+◌, ◌||◌, not, Bool, Option, none, some, is_some, List, [], ◌∷◌, ◌++◌, if◌then◌else◌,
  ltb, nat_eq, length, keep,
}
use blockyard.Client.Device.{take}
use blockyard.Client.Cache.{div_ceil}
use blockyard.Erasure.Shards.{ReedSolomon, data_shards, parity_shards, join_shards}

pub data EcError : Type 0 where
  invalid_parameters : ℕ → ℕ → EcError
  encode_failed decode_failed : EcError
  insufficient_fragments : ℕ → ℕ → EcError

pub data EcResult (A : Type 0) : Type 0 where
  ok : A → EcResult A
  err : EcError → EcResult A

pub record Fragment : Type 0 where
  pub index : ℕ
  pub is_data : Bool
  pub data_bytes : List ℕ

pub record ErasureCodec : Type 0 where
  pub data_count : ℕ
  pub parity_count : ℕ

unfoldable pub total_count : ErasureCodec → ℕ
total_count c = c.data_count + c.parity_count

unfoldable pub fragment_size : ErasureCodec → ℕ → ℕ
unfolding div_ceil
fragment_size c data_len = div_ceil data_len c.data_count

-- The fragments of shards, from an index on.
unfoldable pub to_fragments : ℕ → ℕ → List (List ℕ) → List Fragment
to_fragments data_count i [] = []
to_fragments data_count i (shard ∷ shards) =
    (record { index = i; is_data = ltb i data_count; data_bytes = shard })
    ∷ to_fragments data_count (suc i) shards

-- The shards that are there.
unfoldable pub to_shards : List (Option Fragment) → List (Option (List ℕ))
to_shards [] = []
to_shards (none ∷ fragments) = none ∷ to_shards fragments
to_shards (some f ∷ fragments) = some f.data_bytes ∷ to_shards fragments

unfoldable pub available : List (Option Fragment) → ℕ
unfolding keep
available fragments = length (keep (λ (f : Option Fragment). is_some f) fragments)

abbrev pub encoded : ℕ → Option (List (List ℕ)) → EcResult (List Fragment)
encoded data_count none = err encode_failed
encoded data_count (some shards) = ok (to_fragments data_count 0 shards)

abbrev pub truncated : ℕ → Option (List ℕ) → EcResult (List ℕ)
truncated original_len none = err decode_failed
truncated original_len (some result) = ok (take original_len result)

abbrev pub restored : ℕ → ℕ → Option (List (Option (List ℕ))) → EcResult (List ℕ)
restored data_count original_len none = err decode_failed
restored data_count original_len (some shards) =
    truncated original_len (join_shards data_count shards)

module _ (rs : ReedSolomon) where
  unfoldable pub new : ℕ → ℕ → EcResult ErasureCodec
  new data_count parity_count =
      if nat_eq data_count 0 || nat_eq parity_count 0
      then err (invalid_parameters data_count parity_count)
      else (if rs.accepts data_count parity_count
          then ok (record { data_count = data_count; parity_count = parity_count })
          else err (invalid_parameters data_count parity_count))

  unfoldable pub encode : ErasureCodec → List ℕ → EcResult (List Fragment)
  unfolding fragment_size data_shards parity_shards to_fragments
  encode c [] = err encode_failed
  encode c (b ∷ bs) =
      let frag_size = fragment_size c (length (b ∷ bs)) in
      encoded c.data_count (
        rs.encode c.data_count c.parity_count
          (data_shards frag_size (b ∷ bs) 0 c.data_count ++ parity_shards frag_size c.parity_count))

  unfoldable pub decode : ErasureCodec → List (Option Fragment) → ℕ → EcResult (List ℕ)
  unfolding total_count available to_shards join_shards take
  decode c fragments original_len =
      if not (nat_eq (length fragments) (total_count c))
      then err decode_failed
      else (if ltb (available fragments) c.data_count
          then err (insufficient_fragments (available fragments) c.data_count)
          else restored c.data_count original_len
              (rs.reconstruct c.data_count c.parity_count (to_shards fragments)))
