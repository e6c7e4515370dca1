-- ===== src/Erasure/Joined.antt =====
-- The shards of data, one after the other (crates/blockyard-client/src/ec.rs).
use blockyard.Common.{
  ℕ, zero, suc, ◌≡◌, ◌≤◌, ◌<◌, ◌+◌, ◌-◌, ◌*◌, ◌/◌, min, refl, sym, ap, ◌∙◌, inl, inr, Bool-cases,
  some, List, [], ◌∷◌, ◌++◌, ltb, length, map, All, arith,
}
use blockyard.Client.Cache.{div_ceil}
use blockyard.Storage.Service.Read.{drop, resize}
use blockyard.Erasure.Bytes.{
  resize-nil, length-resize, length-drop, drop_add, drop-past, resize_add, take-zeros,
}
use blockyard.Erasure.Shards.{data_shard, data_shards, join_shards}

abbrev pub OfSize : ℕ → List ℕ → Type 0
OfSize n shard = length shard ≡ n

data_shard-resize : (n : ℕ) (xs : List ℕ) (i : ℕ) → data_shard n xs i ≡ resize n (drop (i * n) xs)
unfolding data_shard
data_shard-resize n xs i =
    let start = i * n in
    let left = length-drop start xs in
    elim (Bool-cases (ltb start (length xs))) [
      | inl e ↦
          let inside : start < length xs = ground arith in
          let kept : min (start + n) (length xs) - start ≡ min n (length (drop start xs)) =
            omega arith in
          rw (e, kept) (take-zeros n (drop start xs))
      | inr e ↦
          let past : length xs ≤ start = ground arith in
          rw (e, drop-past start xs past, resize-nil n) refl
    ]

abbrev pub joined : List (List ℕ) → List ℕ
joined [] = []
joined (s ∷ ss) = s ++ joined ss

next_start : (i n : ℕ) → suc i * n ≡ i * n + n
next_start i n = grind arith

suc_times : (count n : ℕ) → suc count * n ≡ n + count * n
suc_times count n = grind arith

-- The data shards hold the data, padded with zeros.
pub data_shards-joined :
    (n : ℕ) (xs : List ℕ) (i count : ℕ)
    → joined (data_shards n xs i count) ≡ resize (count * n) (drop (i * n) xs)
unfolding data_shards resize
data_shards-joined n xs i zero = let nothing : 0 * n ≡ 0 = omega arith in rw nothing refl
data_shards-joined n xs i (suc count) =
    rw
      (
        suc_times count n,
        resize_add n (count * n) (drop (i * n) xs),
        sym (drop_add (i * n) n xs),
        data_shard-resize n xs i,
        data_shards-joined n xs (suc i) count,
        next_start i n,
      )
      refl

pub length-data_shards :
    (n : ℕ) (xs : List ℕ) (i count : ℕ) → length (data_shards n xs i count) ≡ count
unfolding data_shards
length-data_shards n xs i zero = refl
length-data_shards n xs i (suc count) = ap suc (length-data_shards n xs (suc i) count)

pub data_shards-OfSize :
    (n : ℕ) (xs : List ℕ) (i count : ℕ) → All (OfSize n) (data_shards n xs i count)
unfolding data_shards
data_shards-OfSize n xs i zero = tt
data_shards-OfSize n xs i (suc count) = (
  ap length (data_shard-resize n xs i) ∙ length-resize n (drop (i * n) xs),
  data_shards-OfSize n xs (suc i) count,
)

pub join_shards-joined :
    (ds ps : List (List ℕ))
    → join_shards (length ds) (map (λ (s : List ℕ). some s) (ds ++ ps)) ≡ some (joined ds)
unfolding join_shards
join_shards-joined [] ps = refl
join_shards-joined (d ∷ ds) ps = rw (join_shards-joined ds ps) refl

above : (x d : ℕ) → 0 < d → x < (x / d + 1) * d
above x d pos = grind arith

pub div_ceil-covers : (n d : ℕ) → 0 < d → n ≤ d * div_ceil n d
unfolding div_ceil
div_ceil-covers n d pos =
    let bound = above (n + (d - 1)) d pos in let q = (n + (d - 1)) / d in covers n d q pos bound
  where
    covers : (n d q : ℕ) → 0 < d → n + (d - 1) < (q + 1) * d → n ≤ d * q
    covers n d q pos h = grind arith

pub div_ceil-positive : (n d : ℕ) → 0 < d → 0 < n → 0 < div_ceil n d
unfolding div_ceil
div_ceil-positive n d pos some_data =
    positive n d ((n + (d - 1)) / d) pos some_data (above (n + (d - 1)) d pos)
  where
    positive : (n d q : ℕ) → 0 < d → 0 < n → n + (d - 1) < (q + 1) * d → 0 < q
    positive n d zero pos some_data h = absurd (omega arith)
    positive n d (suc q) pos some_data h = omega arith
