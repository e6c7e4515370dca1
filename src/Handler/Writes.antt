-- ===== src/Handler/Writes.antt =====
-- What the block device has done when a write ends (crates/blockyard-ublk/src/block_handler.rs).
use blockyard.Common.{
  ◌⊎◌, ℕ, suc, ◌≡◌, ◌≤◌, ◌<◌, ◌+◌, ◌-◌, ◌*◌, ◌/◌, refl, ap, inl, inr, true, false, Bool-cases, some,
  List, [], ◌∷◌, ◌++◌, length, arith,
}
use native.Mathlib.Nat.{div-add-mod', mul_comm, mul-sub}
use blockyard.Client.Results.{ClientError, Result, ok, err}
use blockyard.Client.LeaseManager.{LeaseManager, is_active, check_write_allowed}
use blockyard.Client.Cache.{div_ceil}
use blockyard.Client.Device.{WriteRequest, block_range, extent_blocks}
use blockyard.Client.Chunks.{Tiles, all_data, split_write-Tiled}
use blockyard.Client.Pipeline.{committed, insufficient_acks, stale, PipelineState}
use blockyard.Erasure.Joined.{div_ceil-covers}
use blockyard.Handler.Io.{
  IoRequest, VolumeConfig, IoError, lease_not_active, not_allowed, IoResult, done, failed,
  ChunkResult, outcome, refused, on_chunk, write_chunks, Outside, blocks_of, write_chunk,
  handle_write,
}

-- Each of some requests committed, one after the other, from a state to another.
abbrev pub Chain :
    (ℕ → WriteRequest → PipelineState → PipelineState × ChunkResult)
    → ℕ
    → List WriteRequest
    → PipelineState
    → PipelineState
    → Type 0
Chain chunk i [] st st' = st ≡ st'
Chain chunk i (r ∷ rs) st st' =
    (epoch : ℕ) × (st1 : PipelineState) × (chunk i r st ≡ (st1, outcome (committed epoch)))
    × Chain chunk (suc i) rs st1 st'

-- A request that has not been committed.
abbrev pub Refused : ChunkResult → Type 0
Refused (outcome (committed epoch)) = ⊥
Refused (outcome stale) = Unit
Refused (outcome (insufficient_acks acked required)) = Unit
Refused (refused e) = Unit

-- The requests before the first that is not committed have been committed; those after it are not sent.
abbrev pub Torn :
    (ℕ → WriteRequest → PipelineState → PipelineState × ChunkResult)
    → ℕ
    → List WriteRequest
    → PipelineState
    → PipelineState
    → Type 0
Torn chunk i rs st st' =
    (before : List WriteRequest) × (r : WriteRequest) × (later : List WriteRequest)
    × (st1 : PipelineState) × (result : ChunkResult) × (rs ≡ before ++ (r ∷ later))
    × Chain chunk i before st st1
    × (chunk (i + length before) r st1 ≡ (st', result))
    × Refused result

abbrev pub Settled :
    (ℕ → WriteRequest → PipelineState → PipelineState × ChunkResult)
    → ℕ
    → List WriteRequest
    → PipelineState
    → PipelineState × IoResult
    → Type 0
Settled chunk i rs st (st', done d) = Chain chunk i rs st st'
Settled chunk i rs st (st', failed e) = Torn chunk i rs st st'

module _ (chunk : ℕ → WriteRequest → PipelineState → PipelineState × ChunkResult) where
  stopped :
      (i : ℕ) (r : WriteRequest) (rs : List WriteRequest) (st st' : PipelineState)
      (result : ChunkResult)
      → chunk i r st ≡ (st', result)
      → Refused result
      → Torn chunk i (r ∷ rs) st st'
  stopped i r rs st st' result is bad =
      let here : i + 0 ≡ i = omega arith in ([], r, rs, st, result, refl, refl, rw here is, bad)

  later-Settled :
      (i epoch : ℕ) (r : WriteRequest) (rs : List WriteRequest) (st st1 : PipelineState)
      (result : PipelineState × IoResult)
      → chunk i r st ≡ (st1, outcome (committed epoch))
      → Settled chunk (suc i) rs st1 result
      → Settled chunk i (r ∷ rs) st result
  later-Settled i epoch r rs st st1 (st', done d) is h = (epoch, st1, is, h)
  later-Settled i epoch r rs st st1 (st', failed e) is
        (before, q, later, st2, result, same, chain, last, bad) =
      let place : i + suc (length before) ≡ suc i + length before = omega arith in
      (
        r ∷ before,
        q,
        later,
        st2,
        result,
        ap (λ (qs : List WriteRequest). r ∷ qs) same,
        (epoch, st1, is, chain),
        rw place last,
        bad,
      )

  on_chunk-Settled :
      (i : ℕ) (r : WriteRequest) (rs : List WriteRequest) (st : PipelineState)
      (next : PipelineState → PipelineState × IoResult)
      → ((st1 : PipelineState) → Settled chunk (suc i) rs st1 (next st1))
      → (result : PipelineState × ChunkResult) → chunk i r st ≡ result
      → Settled chunk i (r ∷ rs) st (on_chunk next result)
  on_chunk-Settled i r rs st next later (st1, outcome (committed epoch)) is =
      later-Settled i epoch r rs st st1 (next st1) is (later st1)
  on_chunk-Settled i r rs st next later (st1, outcome stale) is =
      stopped i r rs st st1 (outcome stale) is tt
  on_chunk-Settled i r rs st next later (st1, outcome (insufficient_acks acked required)) is =
      stopped i r rs st st1 (outcome (insufficient_acks acked required)) is tt
  on_chunk-Settled i r rs st next later (st1, refused e) is =
      stopped i r rs st st1 (refused e) is tt

  pub write_chunks-Settled :
      (i : ℕ) (rs : List WriteRequest) (st : PipelineState)
      → Settled chunk i rs st (write_chunks chunk i rs st)
  unfolding write_chunks
  write_chunks-Settled i [] st = refl
  write_chunks-Settled i (r ∷ rs) st =
      on_chunk-Settled i r rs st (write_chunks chunk (suc i) rs)
        (λ (st1 : PipelineState). write_chunks-Settled (suc i) rs st1) (chunk i r st) refl

between : (a c s o l : ℕ) → a * s ≤ o → o + l ≤ s * c → l ≤ (c - a) * s
between a c s o l low high =
    rw (mul_comm (c - a) s, mul-sub s c a) (omega (arith, low, high, mul_comm a s))

-- The bytes of a request fit into its blocks.
fits :
    (offset_bytes length_bytes size : ℕ)
    → 0 < size
    → length_bytes
      ≤ ((block_range size offset_bytes length_bytes).stop
          - (block_range size offset_bytes length_bytes).start)
        * size
unfolding block_range
fits offset_bytes length_bytes size pos =
    between (offset_bytes / size) (div_ceil (offset_bytes + length_bytes) size) size offset_bytes
      length_bytes (omega (arith, div-add-mod' offset_bytes size))
      (div_ceil-covers (offset_bytes + length_bytes) size pos)

Result-cases : (r : Result ℕ) → ((a : ℕ) × (r ≡ ok a)) ⊎ ((e : ClientError) × (r ≡ err e))
Result-cases (ok a) = inl (a, refl)
Result-cases (err e) = inr (e, refl)

module _ (o : Outside) (cfg : VolumeConfig) where
  -- A write of a request's data: how it is split, and how the chunks end.
  abbrev pub Written : IoRequest → List ℕ → PipelineState → PipelineState × IoResult → Type 0
  Written q bytes st result =
      let range = block_range cfg.block_size q.offset_bytes q.length_bytes in
      (rs : List WriteRequest) × Tiles (blocks_of cfg) range.start range.stop rs
      × (all_data rs ≡ bytes)
      × Settled (write_chunk o cfg) 0 rs st result

  blocks_of-positive : 0 < blocks_of cfg
  unfolding extent_blocks
  blocks_of-positive = omega arith

  handle_write-Written :
      (fuel : ℕ) (lease : LeaseManager) (q : IoRequest) (bytes : List ℕ) (version : ℕ)
      (st : PipelineState)
      → 0 < cfg.block_size
      → q.data_bytes ≡ some bytes
      → length bytes ≡ q.length_bytes
      → (block_range cfg.block_size q.offset_bytes q.length_bytes).stop
          - (block_range cfg.block_size q.offset_bytes q.length_bytes).start
        < fuel
      → is_active lease.status ≡ true
      → check_write_allowed lease ≡ ok version
      → (result : PipelineState × IoResult) × (handle_write o cfg fuel lease q st ≡ some result)
        × Written q bytes st result
  unfolding handle_write
  handle_write-Written fuel lease q bytes version st pos is size enough active allowed =
      let range = block_range cfg.block_size q.offset_bytes q.length_bytes in
      let within : length bytes ≤ (range.stop - range.start) * cfg.block_size =
        omega (arith, size, fits q.offset_bytes q.length_bytes cfg.block_size pos) in
      let (rs, split, tiles, joined) =
        split_write-Tiled fuel (blocks_of cfg) cfg.block_size range.start range.stop bytes
          blocks_of-positive within enough in
      (
        write_chunks (write_chunk o cfg) 0 rs st,
        rw (active, allowed, is, split) refl,
        (rs, tiles, joined, write_chunks-Settled (write_chunk o cfg) 0 rs st),
      )

  -- Whether the lease permits a write, and otherwise what the write is refused with.
  abbrev pub Permitted : LeaseManager → Type 0
  Permitted lease =
      (version : ℕ) × (is_active lease.status ≡ true) × (check_write_allowed lease ≡ ok version)

  abbrev pub Denied : LeaseManager → IoError → Type 0
  Denied lease e =
      ((is_active lease.status ≡ false) × (e ≡ lease_not_active))
      ⊎ ((c : ClientError) × (check_write_allowed lease ≡ err c) × (e ≡ not_allowed c))

  -- A write that the lease permits and that has been split and sent, or one that is refused.
  abbrev pub Ended : ℕ → LeaseManager → IoRequest → List ℕ → PipelineState → Type 0
  Ended fuel lease q bytes st =
      (Permitted lease
        × ((result : PipelineState × IoResult) × (handle_write o cfg fuel lease q st ≡ some result)
            × Written q bytes st result))
      ⊎ ((e : IoError) × (handle_write o cfg fuel lease q st ≡ some (st, failed e))
          × Denied lease e)

  -- Every write of the device with the data that its length says ends, in as many rounds of the split as
  -- it has blocks and one. Where the lease does not permit it, it is refused and changes nothing.
  -- Otherwise its data are split into requests that cover its blocks in their order, each within one
  -- extent, and carry all the data: if the write ends without an error, every request has been committed,
  -- one after the other; if it ends with one, those before the first that is not committed have been, and
  -- those after it have not been sent.
  pub handle_write-Settled :
      (fuel : ℕ) (lease : LeaseManager) (q : IoRequest) (bytes : List ℕ) (st : PipelineState)
      → 0 < cfg.block_size
      → q.data_bytes ≡ some bytes
      → length bytes ≡ q.length_bytes
      → (block_range cfg.block_size q.offset_bytes q.length_bytes).stop
          - (block_range cfg.block_size q.offset_bytes q.length_bytes).start
        < fuel
      → Ended fuel lease q bytes st
  unfolding handle_write
  handle_write-Settled fuel lease q bytes st pos is size enough =
      elim (Bool-cases (is_active lease.status)) [
        | inr idle ↦ inr (lease_not_active, rw idle refl, inl (idle, refl))
        | inl active ↦ elim (Result-cases (check_write_allowed lease)) [
          | inr (c, refusal) ↦
              inr (not_allowed c, rw (active, refusal) refl, inr (c, refusal, refl))
          | inl (version, allowed) ↦ inl (
            (version, active, allowed),
            handle_write-Written fuel lease q bytes version st pos is size enough active allowed,
          )
        ]
      ]
