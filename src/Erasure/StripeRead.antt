-- ===== src/Erasure/StripeRead.antt =====
-- A block of a stripe is read back from enough of its fragments (`encode_data` of
-- crates/blockyard-ublk/src/ec_write_pipeline.rs and `read_ec_block_data` of block_handler.rs).
use blockyard.Common.{
  ◌≢◌, ℕ, zero, suc, ◌≡◌, ◌≤◌, ◌<◌, ◌+◌, ◌-◌, ◌*◌, min, refl, sym, ap, ◌∙◌, inl, inr, true, false,
  Bool-cases, Option, none, some, List, [], ◌∷◌, ◌++◌, leb, nat_eq, length, length-append, map, All,
  arith,
}
use mathlib.Core.Path.{subst}
use blockyard.Common.Slots.{set_fragment, no_fragments, available_count}
use blockyard.Protection.{erasure_coded}
use blockyard.Client.Cache.{div_ceil}
use blockyard.Storage.Service.Read.{drop, resize}
use blockyard.Erasure.Bytes.{
  resize-nil, length-resize, length-drop, drop-past, take-resize, drop-resize, resize-resize,
  resize-longer,
}
use blockyard.Erasure.Shards.{ReedSolomon, data_shards}
use blockyard.Erasure.Joined.{
  joined, data_shards-joined, length-data_shards, data_shards-OfSize, div_ceil-covers,
  div_ceil-positive,
}
use blockyard.Erasure.RoundTrip.{Erased, Sound}
use blockyard.Erasure.Stripe.{
  StripeResult, ok, collect_shards, join_present, block_of, aligned_start, encode_data, read_shards,
  on_nodes, read_ec_block_data,
}

abbrev pub fragment_at : ℕ → List (List ℕ) → Option (List ℕ)
fragment_at i [] = none
fragment_at zero (f ∷ fs) = some f
fragment_at (suc i) (f ∷ fs) = fragment_at i fs

-- A read of a fragment that, if it succeeds, returns that fragment of a stripe.
abbrev pub Faithful : List (List ℕ) → ℕ × Option (List ℕ) → Type 0
Faithful fs (i, none) = Unit
Faithful fs (i, some bytes) = fragment_at i fs ≡ some bytes

no_fragments-Erased : (fs : List (List ℕ)) → Erased (no_fragments (length fs)) fs
unfolding no_fragments
no_fragments-Erased [] = tt
no_fragments-Erased (f ∷ fs) = no_fragments-Erased fs

set_fragment-Erased :
    (i : ℕ) (bytes : List ℕ) (os : List (Option (List ℕ))) (fs : List (List ℕ))
    → Erased os fs
    → fragment_at i fs ≡ some bytes
    → Erased (set_fragment i bytes os) fs
unfolding set_fragment
set_fragment-Erased i bytes [] [] h is = tt
set_fragment-Erased i bytes [] (f ∷ fs) h is = absurd h
set_fragment-Erased i bytes (o ∷ os) [] h is = absurd h
set_fragment-Erased zero bytes (none ∷ os) (f ∷ fs) h is = (ground arith, h)
set_fragment-Erased zero bytes (some x ∷ os) (f ∷ fs) h is = (ground arith, h.1)
set_fragment-Erased (suc i) bytes (none ∷ os) (f ∷ fs) h is = set_fragment-Erased i bytes os fs h is
set_fragment-Erased (suc i) bytes (some x ∷ os) (f ∷ fs) h is =
    (h.0, set_fragment-Erased i bytes os fs h.1 is)

collect_shards-Erased :
    (results : List (ℕ × Option (List ℕ))) (os : List (Option (List ℕ))) (fs : List (List ℕ))
    → All (Faithful fs) results
    → Erased os fs
    → Erased (collect_shards results os) fs
unfolding collect_shards
collect_shards-Erased [] os fs faithful h = h
collect_shards-Erased ((i, none) ∷ results) os fs faithful h =
    collect_shards-Erased results os fs faithful.1 h
collect_shards-Erased ((i, some bytes) ∷ results) os fs faithful h =
    collect_shards-Erased results (set_fragment i bytes os) fs faithful.1
      (set_fragment-Erased i bytes os fs h faithful.0)

join_present-joined :
    (ds ps : List (List ℕ))
    → join_present (length ds) (map (λ (s : List ℕ). some s) (ds ++ ps)) ≡ joined ds
unfolding join_present
join_present-joined [] ps = refl
join_present-joined (d ∷ ds) ps = ap (λ (xs : List ℕ). d ++ xs) (join_present-joined ds ps)

-- The padding of a stripe does not show in its blocks.
block_of-resize :
    (o s n : ℕ) (xs : List ℕ)
    → length xs ≤ n
    → block_of o s (resize n xs) ≡ resize s (drop (o * s) xs)
unfolding block_of
block_of-resize o s n xs fits =
    let size = length-resize n xs in
    elim (Bool-cases (leb (length (resize n xs)) (o * s))) [
      | inl e ↦
          let past : length xs ≤ o * s = ground arith in
          rw (e, drop-past (o * s) xs past, resize-nil s) refl
      | inr e ↦
          let k = min (o * s + s) (length (resize n xs)) - o * s in
          let kept : k ≤ n - o * s = omega arith in
          let cut = drop-resize (o * s) n xs in
          let first = take-resize k (n - o * s) (drop (o * s) xs) kept in
          let long = length-drop (o * s) xs in
          rw (e, cut, first)
            (elim (Bool-cases (leb s k)) [
              | inl f ↦ resize-longer s k (drop (o * s) xs) (ground arith)
              | inr f ↦
                  let shorter : k < s = ground arith in
                  resize-resize s k (drop (o * s) xs) (omega arith)
            ])
    ]

module _ (rs : ReedSolomon) (sound : Sound rs) where
  -- The shards of data, with parity shards that `encode_data` finds and that help to bring them back.
  abbrev Encoding : List ℕ → ℕ → ℕ → List (List ℕ) → Type 0
  Encoding xs k m ps =
      let shards = data_shards (div_ceil (length xs) k) xs 0 k in
      (length (shards ++ ps) ≡ k + m)
      × (encode_data rs xs k m ≡ ok (shards ++ ps))
      × ((os : List (Option (List ℕ)))
          → Erased os (shards ++ ps)
          → k ≤ available_count os
          → rs.reconstruct k m os ≡ some (map (λ (s : List ℕ). some s) (shards ++ ps)))

  encode_data-Encoding :
      (xs : List ℕ) (k m : ℕ)
      → 0 < k
      → rs.accepts k m ≡ true
      → 0 < length xs
      → (ps : List (List ℕ)) × Encoding xs k m ps
  unfolding encode_data
  encode_data-Encoding [] k m pos accepted some_data = absurd (omega arith)
  encode_data-Encoding (b ∷ bs) k m pos accepted some_data =
      let n = div_ceil (length (b ∷ bs)) k in
      let shards = data_shards n (b ∷ bs) 0 k in
      let (ps, many, found, back) =
        sound k m n shards accepted (length-data_shards n (b ∷ bs) 0 k)
          (div_ceil-positive (length (b ∷ bs)) k pos some_data)
          (data_shards-OfSize n (b ∷ bs) 0 k) in
      let all : length (shards ++ ps) ≡ k + m =
        omega (arith, length-append shards ps, length-data_shards n (b ∷ bs) 0 k, many) in
      (ps, (all, rw (accepted, found) refl, back))

  encode_data-valid :
      (xs : List ℕ) (k m : ℕ) (fs : List (List ℕ))
      → encode_data rs xs k m ≡ ok fs
      → (0 < length xs) × (rs.accepts k m ≡ true)
  unfolding encode_data
  encode_data-valid [] k m fs h = absurd (ground arith)
  encode_data-valid (b ∷ bs) k m fs h = elim (Bool-cases (rs.accepts k m)) [
    | inl e ↦ (omega arith, e)
    | inr e ↦ absurd (ground arith)
  ]

  ok-same : {a b : List (List ℕ)} → StripeResult.ok a ≡ ok b → a ≡ b
  ok-same h = cc

  read_shards-written :
      (xs : List ℕ) (k m o s : ℕ) (ps : List (List ℕ)) (os : List (Option (List ℕ)))
      → 0 < k
      → rs.accepts k m ≡ true
      → Encoding xs k m ps
      → Erased os (data_shards (div_ceil (length xs) k) xs 0 k ++ ps)
      → k ≤ available_count os
      → read_shards rs k m o s os ≡ ok (resize s (drop (o * s) xs))
  unfolding read_shards drop
  read_shards-written xs k m o s ps os pos accepted (all, found, back) erased enough =
      let n = div_ceil (length xs) k in
      let ds = data_shards n xs 0 k in
      let many : nat_eq (available_count os) 0 ≡ false = ground arith in
      let start : 0 * n ≡ 0 = omega arith in
      let whole : joined ds ≡ resize (k * n) xs =
        data_shards-joined n xs 0 k ∙ ap (λ (p : ℕ). resize (k * n) (drop p xs)) start in
      let joins : join_present k (map (λ (d : List ℕ). some d) (ds ++ ps)) ≡ joined ds =
        subst (λ (c : ℕ). join_present c (map (λ (d : List ℕ). some d) (ds ++ ps)) ≡ joined ds)
          (length-data_shards n xs 0 k) (join_present-joined ds ps) in
      let again = back os erased enough in
      rw (many, accepted, again, joins, whole)
        (ap (λ (ys : List ℕ). ok ys)
          (block_of-resize o s (k * n) xs (div_ceil-covers (length xs) k pos)))

  -- A block of an extent that was written as the stripe of some data: where every read of a fragment of
  -- the stripe that succeeds returns that fragment, and as many fragments arrive as there are data
  -- fragments, the block reads as its part of the data, padded with zeros.
  pub read_ec_block_data-written :
      (xs : List ℕ) (k m : ℕ) (fs : List (List ℕ)) (nodes_of : ℕ → List ℕ)
      (results_of : ℕ → List (ℕ × Option (List ℕ))) (extent_blocks block_num block_size : ℕ)
      → 0 < k
      → encode_data rs xs k m ≡ ok fs
      → nodes_of (aligned_start extent_blocks block_num) ≢ []
      → All (Faithful fs) (results_of (aligned_start extent_blocks block_num))
      → k
        ≤ available_count (
            collect_shards
              (results_of (aligned_start extent_blocks block_num))
              (no_fragments (k + m)))
      → read_ec_block_data rs nodes_of results_of
          (erasure_coded k m)
          extent_blocks
          block_num
          block_size
        ≡ ok (
            resize block_size
              (drop ((block_num - aligned_start extent_blocks block_num) * block_size) xs))
  unfolding read_ec_block_data
  read_ec_block_data-written xs k m fs nodes_of results_of eb b s pos is placed faithful enough =
      let start = aligned_start eb b in
      let (some_data, accepted) = encode_data-valid xs k m fs is in
      let (ps, encoding) = encode_data-Encoding xs k m pos accepted some_data in
      let shards = data_shards (div_ceil (length xs) k) xs 0 k ++ ps in
      let same : fs ≡ shards = ok-same (sym is ∙ encoding.1) in
      let os = collect_shards (results_of start) (no_fragments (k + m)) in
      let blank : Erased (no_fragments (k + m)) shards =
        subst (λ (c : ℕ). Erased (no_fragments c) shards) encoding.0 (no_fragments-Erased shards) in
      let erased =
        collect_shards-Erased (results_of start) (no_fragments (k + m)) shards
          (subst (λ (gs : List (List ℕ)). All (Faithful gs) (results_of start)) same faithful)
          blank in
      let written =
        read_shards-written xs k m (b - start) s ps os pos accepted encoding erased enough in
      go (nodes_of start) placed written
    where
      go :
          (nodes : List ℕ)
          → nodes ≢ []
          → read_shards rs k m
              (b - aligned_start eb b)
              s
              (collect_shards (results_of (aligned_start eb b)) (no_fragments (k + m)))
            ≡ ok (resize s (drop ((b - aligned_start eb b) * s) xs))
          → on_nodes rs k m (b - aligned_start eb b) s (results_of (aligned_start eb b)) nodes
            ≡ ok (resize s (drop ((b - aligned_start eb b) * s) xs))
      go [] placed h = absurd (placed refl)
      go (n ∷ ns) placed h = h
