-- ===== src/Client/Chunks.antt =====
-- How a write of the block device is split (crates/blockyard-ublk/src/block_handler.rs).
use blockyard.Common.{
  ℕ, zero, suc, ◌≡◌, ◌≤◌, ◌<◌, refl, sym, ap, ◌∙◌, ◌+◌, ◌-◌, ◌*◌, ◌/◌, min, inl, inr, true, false,
  Bool-cases, some, List, [], ◌∷◌, ◌++◌, ltb, leb, nat_eq, length, arith,
}
use blockyard.Client.Device.{WriteRequest, take, split_write, block_read, block_to_extent}
use blockyard.Storage.Service.Read.{ReadExtentRequest, payload_of, zeros, resize, drop}

below-next : (n d : ℕ) → 0 < d → n < (n / d + 1) * d
below-next n d pos = grind arith

-- Requests for the blocks from one to another, in their order, each for blocks of one extent.
abbrev pub Tiles : ℕ → ℕ → ℕ → List WriteRequest → Type 0
Tiles extent_blocks start stop [] = stop ≤ start
Tiles extent_blocks start stop (r ∷ rs) =
    (r.block_range.start ≡ start)
    × (start < r.block_range.stop)
    × (r.block_range.stop ≤ stop)
    × (r.block_range.stop ≤ (start / extent_blocks + 1) * extent_blocks)
    × Tiles extent_blocks r.block_range.stop stop rs

-- The data of the requests, one after the other.
abbrev pub all_data : List WriteRequest → List ℕ
all_data [] = []
all_data (r ∷ rs) = r.data_bytes ++ all_data rs

length-drop : (n : ℕ) (xs : List ℕ) → length (drop n xs) ≡ length xs - n
unfolding drop
length-drop zero xs = omega arith
length-drop (suc n) [] = omega arith
length-drop (suc n) (x ∷ xs) = omega (arith, length-drop n xs)

take-drop : (n : ℕ) (xs : List ℕ) → take n xs ++ drop n xs ≡ xs
unfolding take drop
take-drop zero xs = refl
take-drop (suc n) [] = refl
take-drop (suc n) (x ∷ xs) = ap (λ (ys : List ℕ). x ∷ ys) (take-drop n xs)

length-zero : (xs : List ℕ) → length xs ≤ 0 → xs ≡ []
length-zero [] h = refl
length-zero (x ∷ xs) h = absurd (omega arith)

apart : (a b c s : ℕ) → a ≤ b → b ≤ c → (c - a) * s ≡ (b - a) * s + (c - b) * s
apart a b c s le le' = grind arith

no_blocks : (start stop s : ℕ) → stop ≤ start → (stop - start) * s ≤ 0
no_blocks start stop s le = let none : stop - start ≡ 0 = omega arith in rw none (omega arith)

-- The requests of a write that starts at a block, and the data that they carry.
abbrev pub Tiled : ℕ → ℕ → ℕ → ℕ → ℕ → List ℕ → Type 0
Tiled fuel extent_blocks block_size start stop data_bytes =
    (rs : List WriteRequest) × (split_write fuel extent_blocks block_size start stop data_bytes
      ≡ some rs)
    × Tiles extent_blocks start stop rs
    × (all_data rs ≡ data_bytes)

-- A write of no more data than its blocks hold is split, in at most as many steps as it has blocks and
-- one, into requests for consecutive blocks from its first to its last, each within one extent, whose
-- data are the data of the write in their order.
pub split_write-Tiled :
    (fuel extent_blocks block_size start stop : ℕ) (data_bytes : List ℕ)
    → 0 < extent_blocks
    → length data_bytes ≤ (stop - start) * block_size
    → stop - start < fuel
    → Tiled fuel extent_blocks block_size start stop data_bytes
unfolding split_write
split_write-Tiled zero eb bs start stop data_bytes pos fits enough = absurd (omega arith)
split_write-Tiled (suc fuel) eb bs start stop data_bytes pos fits enough =
    let next = (start / eb + 1) * eb in
    let after : start < next = below-next start eb pos in
    let to = min next stop in
    let count = min ((to - start) * bs) (length data_bytes) in
    elim (Bool-cases (ltb start stop)) [
      | inr e ↦
          let done : stop ≤ start = ground arith in
          let none_left : length data_bytes ≤ 0 = omega (arith, no_blocks start stop bs done) in
          ([], rw e refl, done, sym (length-zero data_bytes none_left))
      | inl e ↦
          let more : start < stop = ground arith in
          let split = apart start to stop bs (omega arith) (omega arith) in
          let left = length-drop count data_bytes in
          let (rs, is, tiles, joined) =
            split_write-Tiled fuel eb bs to stop (drop count data_bytes) pos (omega arith)
              (omega arith) in
          (
            (record {
              block_range = record { start = start; stop = to };
              data_bytes = take count data_bytes;
            })
                ∷ rs,
            rw (e, is) refl,
            (refl, omega arith, omega arith, omega arith, tiles),
            ap (λ (ys : List ℕ). take count data_bytes ++ ys) joined ∙ take-drop count data_bytes,
          )
    ]

times_above : (o s : ℕ) → 0 < o → s ≤ o * s
times_above o s pos = grind arith

-- `read_single_block_data`, served from an extent that holds some data.
abbrev pub read_back : ℕ → ℕ → ℕ → ReadExtentRequest → List ℕ → List ℕ
read_back extent_blocks block_size block_num q stored =
    payload_of (block_read extent_blocks block_size block_num q) stored

-- A block is lost that is written by itself and is not the first of its extent: the extent then holds
-- the block's data alone, at its start, and reading the block gives zeros.
pub read_back-lost :
    (extent_blocks block_size block_num : ℕ) (q : ReadExtentRequest) (stored : List ℕ)
    → 0 < block_size
    → 0 < (block_to_extent block_num extent_blocks).1
    → length stored ≤ block_size
    → read_back extent_blocks block_size block_num q stored ≡ zeros block_size
unfolding payload_of block_read
read_back-lost extent_blocks block_size block_num q stored pos later fits =
    let o = (block_to_extent block_num extent_blocks).1 in
    let past : block_size ≤ o * block_size = times_above o block_size later in
    let asked : nat_eq (o * block_size + block_size) 0 ≡ false = ground arith in
    let beyond : leb (length stored) (o * block_size) ≡ true = ground arith in
    rw (asked, beyond) refl

-- A block reads back its part of the data that its extent holds, cut or padded to the block's size.
read_back-found :
    (extent_blocks block_size block_num : ℕ) (q : ReadExtentRequest) (stored : List ℕ)
    → 0 < block_size
    → (block_to_extent block_num extent_blocks).1 * block_size < length stored
    → read_back extent_blocks block_size block_num q stored
      ≡ resize block_size (drop ((block_to_extent block_num extent_blocks).1 * block_size) stored)
unfolding payload_of block_read
read_back-found extent_blocks block_size block_num q stored pos within =
    let o = (block_to_extent block_num extent_blocks).1 in
    let asked : nat_eq (o * block_size + block_size) 0 ≡ false = ground arith in
    let inside : leb (length stored) (o * block_size) ≡ false = ground arith in
    rw (asked, inside) refl
