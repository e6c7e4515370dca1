-- ===== src/Protection.antt =====
-- crates/blockyard-common/src/protection.rs: replication and erasure-coding policies. The numbers
-- are `u8`.
use blockyard.Common.{ℕ, ◌+◌, ◌-◌, ◌<◌, ◌≡◌, Option, none, some, arith, ltb, if◌then◌else◌}

pub data ProtectionPolicy : Type 0 where
  replicated : ℕ → ProtectionPolicy
  erasure_coded : ℕ → ℕ → ProtectionPolicy

pub data PolicyError : Type 0 where
  no_replica no_data_chunk no_parity_chunk : PolicyError

-- `none` stands for `Ok(())`.
unfoldable pub validate : ProtectionPolicy → Option PolicyError
validate (replicated replicas) = if ltb replicas 1 then some no_replica else none
validate (erasure_coded data_chunks parity_chunks) =
    if ltb data_chunks 1
    then some no_data_chunk
    else if ltb parity_chunks 1
    then some no_parity_chunk
    else none

unfoldable pub required_nodes : ProtectionPolicy → ℕ
required_nodes (replicated replicas) = replicas
required_nodes (erasure_coded data_chunks parity_chunks) =
    if ltb (data_chunks + parity_chunks) 256 then data_chunks + parity_chunks else 255

unfoldable pub fault_tolerance : ProtectionPolicy → ℕ
fault_tolerance (replicated replicas) = replicas - 1
fault_tolerance (erasure_coded data_chunks parity_chunks) = parity_chunks

-- The fewest nodes that hold the data.
abbrev pub data_nodes : ProtectionPolicy → ℕ
data_nodes (replicated replicas) = 1
data_nodes (erasure_coded data_chunks parity_chunks) = data_chunks

abbrev pub IsWide : ProtectionPolicy → Type 0
IsWide (replicated replicas) = replicas < 256
IsWide (erasure_coded data_chunks parity_chunks) = data_chunks + parity_chunks < 256

-- A policy that passes validation, and whose node count fits in a `u8`, requires one node for each
-- failure that it tolerates beside those that hold the data.
pub required_nodes-fault_tolerance :
    (p : ProtectionPolicy)
    → validate p ≡ none
    → IsWide p
    → required_nodes p ≡ fault_tolerance p + data_nodes p
unfolding validate required_nodes fault_tolerance
required_nodes-fault_tolerance (replicated r) v w = ground arith
required_nodes-fault_tolerance (erasure_coded k m) v w = ground arith
