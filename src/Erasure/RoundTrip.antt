-- ===== src/Erasure/RoundTrip.antt =====
-- Data that are encoded come back from enough of their fragments (crates/blockyard-client/src/ec.rs).
use blockyard.Common.{
  ℕ, suc, ◌≡◌, ◌≤◌, ◌<◌, ◌+◌, ◌*◌, refl, sym, ap, ◌∙◌, true, false, Option, none, some, List, [],
  ◌∷◌, ◌++◌, ltb, nat_eq, length, length-append, keep, map, All, arith,
}
use mathlib.Core.Path.{subst}
use blockyard.Common.Slots.{available_count}
use blockyard.Storage.Service.Read.{drop, resize}
use blockyard.Erasure.Bytes.{take-resize, resize-length}
use blockyard.Erasure.Joined.{
  OfSize, joined, data_shards-joined, length-data_shards, data_shards-OfSize, join_shards-joined,
  div_ceil-covers, div_ceil-positive,
}
use blockyard.Erasure.Shards.{ReedSolomon, data_shards, parity_shards, join_shards}
use blockyard.Erasure.Codec.{
  EcResult, ok, Fragment, ErasureCodec, total_count, fragment_size, to_fragments, to_shards,
  available, restored, new, encode, decode,
}

-- A list of which some elements may be missing.
abbrev pub Erased : {A : Type 0} → List (Option A) → List A → Type 0
Erased [] [] = Unit
Erased [] (x ∷ xs) = ⊥
Erased (o ∷ os) [] = ⊥
Erased (none ∷ os) (x ∷ xs) = Erased os xs
Erased (some y ∷ os) (x ∷ xs) = (y ≡ x) × Erased os xs

-- What the crate documents: shards of one size that it accepts get parity shards, and as many of all
-- the shards as there are data shards bring back the others.
abbrev pub Sound : ReedSolomon → Type 0
Sound rs =
    (data_count parity_count size : ℕ) (shards : List (List ℕ))
    → rs.accepts data_count parity_count ≡ true
    → length shards ≡ data_count
    → 0 < size
    → All (OfSize size) shards
    → (parity : List (List ℕ)) × (length parity ≡ parity_count)
      × (rs.encode data_count parity_count (shards ++ parity_shards size parity_count)
          ≡ some (shards ++ parity))
      × ((os : List (Option (List ℕ)))
          → Erased os (shards ++ parity)
          → data_count ≤ available_count os
          → rs.reconstruct data_count parity_count os
            ≡ some (map (λ (s : List ℕ). some s) (shards ++ parity)))

available_count-to_shards :
    (os : List (Option Fragment)) → available_count (to_shards os) ≡ available os
unfolding available_count to_shards available keep
available_count-to_shards [] = refl
available_count-to_shards (none ∷ os) = available_count-to_shards os
available_count-to_shards (some f ∷ os) = ap suc (available_count-to_shards os)

to_shards-Erased :
    (data_count i : ℕ) (xs : List (List ℕ)) (os : List (Option Fragment))
    → Erased os (to_fragments data_count i xs)
    → Erased (to_shards os) xs
unfolding to_shards to_fragments
to_shards-Erased data_count i [] [] h = tt
to_shards-Erased data_count i [] (o ∷ os) h = absurd h
to_shards-Erased data_count i (x ∷ xs) [] h = absurd h
to_shards-Erased data_count i (x ∷ xs) (none ∷ os) h = to_shards-Erased data_count (suc i) xs os h
to_shards-Erased data_count i (x ∷ xs) (some f ∷ os) h =
    (ap (λ (g : Fragment). g.data_bytes) h.0, to_shards-Erased data_count (suc i) xs os h.1)

pub length-Erased :
    {A : Type 0} (os : List (Option A)) (xs : List A) → Erased os xs → length os ≡ length xs
length-Erased [] [] h = refl
length-Erased [] (x ∷ xs) h = absurd h
length-Erased (o ∷ os) [] h = absurd h
length-Erased (none ∷ os) (x ∷ xs) h = ap suc (length-Erased os xs h)
length-Erased (some y ∷ os) (x ∷ xs) h = ap suc (length-Erased os xs h.1)

length-to_fragments :
    (data_count i : ℕ) (xs : List (List ℕ)) → length (to_fragments data_count i xs) ≡ length xs
unfolding to_fragments
length-to_fragments data_count i [] = refl
length-to_fragments data_count i (x ∷ xs) = ap suc (length-to_fragments data_count (suc i) xs)

ok-same : {A : Type 0} {a b : A} → EcResult.ok a ≡ ok b → a ≡ b
ok-same h = cc

module _ (rs : ReedSolomon) where
  new-valid :
      (data_count parity_count : ℕ) (c : ErasureCodec)
      → new rs data_count parity_count ≡ ok c
      → (0 < c.data_count) × (rs.accepts c.data_count c.parity_count ≡ true)
  unfolding new
  new-valid data_count parity_count c h = ground arith

  -- The shards of data, with parity shards that `encode` finds and that help to bring them back.
  abbrev Encoding : ErasureCodec → List ℕ → List (List ℕ) → Type 0
  Encoding c xs ps =
      (length ps ≡ c.parity_count)
      × (encode rs c xs
          ≡ ok (
              to_fragments c.data_count 0
                (data_shards (fragment_size c (length xs)) xs 0 c.data_count ++ ps)))
      × ((os : List (Option (List ℕ)))
          → Erased os (data_shards (fragment_size c (length xs)) xs 0 c.data_count ++ ps)
          → c.data_count ≤ available_count os
          → rs.reconstruct c.data_count c.parity_count os
            ≡ some (
                map (λ (s : List ℕ). some s)
                  (data_shards (fragment_size c (length xs)) xs 0 c.data_count ++ ps)))

  module _ (sound : Sound rs) where
    encode-Encoding :
        (c : ErasureCodec) (xs : List ℕ)
        → 0 < c.data_count
        → rs.accepts c.data_count c.parity_count ≡ true
        → 0 < length xs
        → (ps : List (List ℕ)) × Encoding c xs ps
    unfolding encode fragment_size
    encode-Encoding c [] pos accepted some_data = absurd (omega arith)
    encode-Encoding c (b ∷ bs) pos accepted some_data =
        let n = fragment_size c (length (b ∷ bs)) in
        let shards = data_shards n (b ∷ bs) 0 c.data_count in
        let (ps, many, found, back) =
          sound c.data_count c.parity_count n shards accepted
            (length-data_shards n (b ∷ bs) 0 c.data_count)
            (div_ceil-positive (length (b ∷ bs)) c.data_count pos some_data)
            (data_shards-OfSize n (b ∷ bs) 0 c.data_count) in
        (ps, (many, rw found refl, back))

    -- What the reconstruction of all shards gives.
    restored-data :
        (c : ErasureCodec) (xs : List ℕ) (ps : List (List ℕ))
        → 0 < c.data_count
        → restored c.data_count (length xs) (
            some (
              map
                (λ (s : List ℕ). some s)
                (data_shards (fragment_size c (length xs)) xs 0 c.data_count ++ ps)))
          ≡ ok xs
    unfolding fragment_size drop
    restored-data c xs ps pos =
        let n = fragment_size c (length xs) in
        let ds = data_shards n xs 0 c.data_count in
        let covers : length xs ≤ c.data_count * n = div_ceil-covers (length xs) c.data_count pos in
        let start : 0 * n ≡ 0 = omega arith in
        let whole : joined ds ≡ resize (c.data_count * n) xs =
          data_shards-joined n xs 0 c.data_count
          ∙ ap (λ (o : ℕ). resize (c.data_count * n) (drop o xs)) start in
        let joins : join_shards c.data_count (map (λ (s : List ℕ). some s) (ds ++ ps))
            ≡ some (joined ds) =
          subst
            (λ (k : ℕ). join_shards k (map (λ (s : List ℕ). some s) (ds ++ ps)) ≡ some (joined ds))
            (length-data_shards n xs 0 c.data_count) (join_shards-joined ds ps) in
        rw (joins, whole)
          (ap (λ (ys : List ℕ). ok ys)
            (take-resize (length xs) (c.data_count * n) xs covers ∙ resize-length xs))

    -- From any of the fragments that `encode` makes of data, as long as they are as many as the data
    -- fragments, `decode` gives the data back.
    pub decode-encode :
        (data_count parity_count : ℕ) (c : ErasureCodec) (xs : List ℕ) (fs : List Fragment)
        (os : List (Option Fragment))
        → new rs data_count parity_count ≡ ok c
        → 0 < length xs
        → encode rs c xs ≡ ok fs
        → Erased os fs
        → c.data_count ≤ available os
        → decode rs c os (length xs) ≡ ok xs
    unfolding decode total_count
    decode-encode data_count parity_count c xs fs os valid some_data is erased enough =
        let (pos, accepted) = new-valid data_count parity_count c valid in
        let (ps, (many, found, back)) = encode-Encoding c xs pos accepted some_data in
        let n = fragment_size c (length xs) in
        let shards = data_shards n xs 0 c.data_count ++ ps in
        let same : fs ≡ to_fragments c.data_count 0 shards = ok-same (sym is ∙ found) in
        let erased' : Erased os (to_fragments c.data_count 0 shards) =
          subst (λ (gs : List Fragment). Erased os gs) same erased in
        let all : length os ≡ c.data_count + c.parity_count =
          length-Erased os (to_fragments c.data_count 0 shards) erased'
          ∙ length-to_fragments c.data_count 0 shards
          ∙ omega (
            arith,
            many,
            length-append (data_shards n xs 0 c.data_count) ps,
            length-data_shards n xs 0 c.data_count,
          ) in
        let whole : nat_eq (length os) (c.data_count + c.parity_count) ≡ true = ground arith in
        let few : ltb (available os) c.data_count ≡ false = ground arith in
        let again =
          back (to_shards os) (to_shards-Erased c.data_count 0 shards os erased')
            (omega (arith, available_count-to_shards os)) in
        rw (whole, few, again) (restored-data c xs ps pos)
