-- ===== src/Handler/Reads.antt =====
-- What the block device reads from a volume with an erasure code
-- (crates/blockyard-ublk/src/block_handler.rs).
use blockyard.Common.{
  ◌≢◌, ℕ, zero, suc, ◌≡◌, ◌≤◌, ◌<◌, ◌+◌, ◌-◌, ◌*◌, ◌/◌, refl, sym, ap, ◌∙◌, inl, inr, true,
  Bool-cases, some, List, [], leb, All, arith,
}
use native.Mathlib.Nat.{div-add-mod', div-eq_of_lt-le}
use mathlib.Core.Path.{subst}
use blockyard.Common.Slots.{no_fragments, available_count}
use blockyard.Protection.{ProtectionPolicy, erasure_coded}
use blockyard.Client.Watermark.{is_fresh}
use blockyard.Client.Cache.{MetadataCache}
use blockyard.Client.Device.{block_range, extent_blocks}
use blockyard.Client.Pipeline.{PipelineState, select_nodes, list_nodes}
use blockyard.Storage.Service.Read.{drop, resize}
use blockyard.Erasure.Bytes.{drop_add, resize_add, take-resize}
use blockyard.Erasure.RoundTrip.{Sound}
use blockyard.Erasure.Stripe.{ok, collect_shards, aligned_start, encode_data, read_ec_block_data}
use blockyard.Erasure.StripeRead.{Faithful, read_ec_block_data-written}
use blockyard.Handler.Io.{
  IoRequest, VolumeConfig, IoResult, done, Outside, blocks_of, read_stripe, read_one, read_blocks,
  read_range, handle_read,
}

one_more : (q d : ℕ) → (q + 1) * d ≡ q * d + d
one_more q d = grind arith

whole_block : (n l s : ℕ) → n ≤ 1 → 0 < l → l ≡ n * s → l ≡ s
whole_block zero l s few some_data size =
    let nothing : 0 * s ≡ 0 = omega arith in absurd (omega (arith, size, nothing))
whole_block (suc n) l s few some_data size =
    let one : suc n ≡ 1 = omega arith in size ∙ ap (λ (c : ℕ). c * s) one ∙ omega arith

inside : (n lo hi bound l s : ℕ) → hi - lo ≡ n → 0 < l → l ≡ n * s → hi ≤ bound → lo < bound
inside zero lo hi bound l s is some_data size within =
    let nothing : 0 * s ≡ 0 = omega arith in absurd (omega (arith, size, nothing))
inside (suc n) lo hi bound l s is some_data size within = omega arith

-- The blocks of one extent have the same first block.
aligned_start-same :
    (extent_blocks lo b : ℕ)
    → 0 < extent_blocks
    → lo ≤ b
    → b < aligned_start extent_blocks lo + extent_blocks
    → aligned_start extent_blocks b ≡ aligned_start extent_blocks lo
unfolding aligned_start
aligned_start-same eb lo b pos from within =
    let split = div-add-mod' lo eb in
    let quotient : b / eb ≡ lo / eb =
      div-eq_of_lt-le eb (omega arith) (omega (arith, one_more (lo / eb) eb)) in
    ap (λ (q : ℕ). q * eb) quotient

aligned_start-le : (extent_blocks b : ℕ) → aligned_start extent_blocks b ≤ b
unfolding aligned_start
aligned_start-le eb b = omega (arith, div-add-mod' b eb)

next_block : (b start s : ℕ) → start ≤ b → (suc b - start) * s ≡ (b - start) * s + s
next_block b start s from =
    let next : suc b - start ≡ (b - start) + 1 = omega arith in rw next (one_more (b - start) s)

blocks_positive : (cfg : VolumeConfig) → 0 < blocks_of cfg
unfolding extent_blocks
blocks_positive cfg = omega arith

module _ (o : Outside) (cfg : VolumeConfig) (sound : Sound o.code) (c : MetadataCache) where
  abbrev pub nodes_of : ℕ → ℕ → ℕ → List ℕ
  nodes_of k m start = select_nodes (o.score start) (list_nodes c) (k + m)

  -- An extent of a volume with an erasure code has been written as the stripe of some data, and enough
  -- of its fragments can be read, as they were written.
  abbrev pub Readable : ℕ → ℕ → List ℕ → ℕ → Type 0
  Readable k m xs start =
      (fs : List (List ℕ)) × (encode_data o.code xs k m ≡ ok fs)
      × (nodes_of k m start ≢ [])
      × All (Faithful fs) (o.read_fragments start (nodes_of k m start))
      × (k
          ≤ available_count
              (collect_shards (o.read_fragments start (nodes_of k m start)) (no_fragments (k + m))))

  module _ (k m : ℕ) (xs : List ℕ) (start : ℕ) where
    read_stripe-written :
        (b : ℕ)
        → cfg.protection ≡ erasure_coded k m
        → 0 < k
        → Readable k m xs start
        → aligned_start (blocks_of cfg) b ≡ start
        → read_stripe o cfg k m b c
          ≡ ok (resize cfg.block_size (drop ((b - start) * cfg.block_size) xs))
    unfolding read_stripe
    read_stripe-written b policy pos readable at =
        let (fs, is, placed, faithful, enough) =
          subst (λ (s : ℕ). Readable k m xs s) (sym at) readable in
        let found =
          read_ec_block_data-written o.code sound xs k m fs (nodes_of k m)
            (λ (s : ℕ). o.read_fragments s (nodes_of k m s)) (blocks_of cfg) b cfg.block_size pos is
            placed faithful enough in
        rw policy (
          subst
            (λ (s : ℕ).
              read_ec_block_data o.code (nodes_of k m)
                (λ (s : ℕ). o.read_fragments s (nodes_of k m s)) (erasure_coded k m) (blocks_of cfg)
                b cfg.block_size
              ≡ ok (resize cfg.block_size (drop ((b - s) * cfg.block_size) xs)))
            at found)

    read_one-written :
        (b length_bytes : ℕ)
        → cfg.protection ≡ erasure_coded k m
        → 0 < k
        → Readable k m xs start
        → aligned_start (blocks_of cfg) b ≡ start
        → read_one o cfg cfg.protection b length_bytes c
          ≡ ok (resize cfg.block_size (drop ((b - start) * cfg.block_size) xs))
    read_one-written b length_bytes policy pos readable at =
        subst
          (λ (p : ProtectionPolicy).
            read_one o cfg p b length_bytes c
            ≡ ok (resize cfg.block_size (drop ((b - start) * cfg.block_size) xs)))
          (sym policy) (read_stripe-written b policy pos readable at)

    read_blocks-written :
        (b count : ℕ)
        → cfg.protection ≡ erasure_coded k m
        → 0 < k
        → Readable k m xs start
        → start ≤ b
        → aligned_start (blocks_of cfg) start ≡ start
        → b + count ≤ start + blocks_of cfg
        → read_blocks o cfg b count c
          ≡ ok (resize (count * cfg.block_size) (drop ((b - start) * cfg.block_size) xs))
    unfolding read_blocks resize
    read_blocks-written b zero policy pos readable from whole within =
        let nothing : 0 * cfg.block_size ≡ 0 = omega arith in rw nothing refl
    read_blocks-written b (suc count) policy pos readable from whole within =
        let s = cfg.block_size in
        let at : aligned_start (blocks_of cfg) b ≡ start =
          aligned_start-same (blocks_of cfg) start b (blocks_positive cfg) from
            (subst (λ (f : ℕ). b < f + blocks_of cfg) (sym whole) (omega arith))
          ∙ whole in
        let now = read_one-written b s policy pos readable at in
        let later =
          read_blocks-written (suc b) count policy pos readable (omega arith) whole (omega arith) in
        let shifted : (suc b - start) * s ≡ (b - start) * s + s = next_block b start s from in
        let longer : suc count * s ≡ s + count * s = grind arith in
        rw (now, later, shifted, longer, drop_add ((b - start) * s) s xs)
          (ap (λ (ys : List ℕ). ok ys) (sym (resize_add s (count * s) (drop ((b - start) * s) xs))))

    read_range-written :
        (q : IoRequest)
        → cfg.protection ≡ erasure_coded k m
        → 0 < k
        → Readable k m xs start
        → aligned_start (blocks_of cfg) start ≡ start
        → start ≤ (block_range cfg.block_size q.offset_bytes q.length_bytes).start
        → (block_range cfg.block_size q.offset_bytes q.length_bytes).stop ≤ start + blocks_of cfg
        → 0 < q.length_bytes
        → q.length_bytes
          ≡ ((block_range cfg.block_size q.offset_bytes q.length_bytes).stop
              - (block_range cfg.block_size q.offset_bytes q.length_bytes).start)
            * cfg.block_size
        → read_range o cfg q c
          ≡ done (
              some (
                resize q.length_bytes (
                  drop
                    (((block_range cfg.block_size q.offset_bytes q.length_bytes).start - start)
                      * cfg.block_size)
                    xs)))
    unfolding read_range
    read_range-written q policy pos readable whole from within some_data size =
        let range = block_range cfg.block_size q.offset_bytes q.length_bytes in
        let n = range.stop - range.start in
        elim (Bool-cases (leb n 1)) [
          | inl single ↦
              let few : n ≤ 1 = ground arith in
              let one_block : q.length_bytes ≡ cfg.block_size =
                whole_block n q.length_bytes cfg.block_size few some_data size in
              let at : aligned_start (blocks_of cfg) range.start ≡ start =
                aligned_start-same (blocks_of cfg) start range.start (blocks_positive cfg) from (
                  subst (λ (f : ℕ). range.start < f + blocks_of cfg) (sym whole)
                    (inside n range.start range.stop (start + blocks_of cfg) q.length_bytes
                      cfg.block_size refl some_data size within))
                ∙ whole in
              let now = read_one-written range.start q.length_bytes policy pos readable at in
              rw (single, now)
                (ap
                  (λ (l : ℕ).
                    done (some (resize l (drop ((range.start - start) * cfg.block_size) xs))))
                  (sym one_block))
          | inr several ↦
              let many : 1 < n = ground arith in
              let all =
                read_blocks-written range.start n policy pos readable from whole (omega arith) in
              let first =
                take-resize q.length_bytes (n * cfg.block_size)
                  (drop ((range.start - start) * cfg.block_size) xs) (omega (arith, size)) in
              rw (several, all) (ap (λ (ys : List ℕ). done (some ys)) first)
        ]

module _ (o : Outside) (cfg : VolumeConfig) (sound : Sound o.code) where
  -- A read of whole blocks of an extent of a volume with an erasure code, while the cache is as new as
  -- the watermark: where the extent has been written as the stripe of some data, and enough of its
  -- fragments can be read, as they were written, the read returns those blocks of the data, padded with
  -- zeros, and changes nothing.
  pub handle_read-written :
      (k m : ℕ) (xs : List ℕ) (start : ℕ) (q : IoRequest) (st : PipelineState)
      → is_fresh st.shared.cache.epoch st.shared.watermark ≡ true
      → cfg.protection ≡ erasure_coded k m
      → 0 < k
      → Readable o cfg sound st.shared.cache k m xs start
      → aligned_start (blocks_of cfg) start ≡ start
      → start ≤ (block_range cfg.block_size q.offset_bytes q.length_bytes).start
      → (block_range cfg.block_size q.offset_bytes q.length_bytes).stop ≤ start + blocks_of cfg
      → 0 < q.length_bytes
      → q.length_bytes
        ≡ ((block_range cfg.block_size q.offset_bytes q.length_bytes).stop
            - (block_range cfg.block_size q.offset_bytes q.length_bytes).start)
          * cfg.block_size
      → handle_read o cfg q st ≡ (
        st,
        done (
            some (
              resize q.length_bytes (
                drop
                  (((block_range cfg.block_size q.offset_bytes q.length_bytes).start - start)
                    * cfg.block_size)
                  xs))),
      )
  unfolding handle_read
  handle_read-written k m xs start q st fresh policy pos readable whole from within some_data size =
      rw fresh (
        ap (λ (r : IoResult). (st, r))
          (read_range-written o cfg sound st.shared.cache k m xs start q policy pos readable whole
            from within some_data size))
