-- ===== src/Client/Lookups.antt =====
-- What the cached mappings answer (crates/blockyard-ublk/src/metadata_cache.rs).
use blockyard.Common.{
  ◌≢◌, ◌⊎◌, Option-cases, ℕ-eq, String-eq, ℕ, ◌≡◌, ◌<◌, ◌≤◌, ◌+◌, ◌-◌, suc, zero, max, u64_mod,
  refl, String, true, false, [], ◌∷◌, Option, none, some, if◌then◌else◌, leb, ltb, arith,
  Bool-cases, inl, inr, ◌&&◌, ◌==◌,
}
use native.Mathlib.Nat.{div-eq_of_lt-le}
use text.Mathlib.TextEquality.{eq_iff}
use blockyard.Common.Maps.{Map, get, insert, get-insert, get-insert_self}
use blockyard.Metadata.State.{BlockRange}
use blockyard.Client.Cache.{
  CachedExtentMapping, CachedVolumeInfo, MetadataCache, block_mapping, put_blocks, later_of,
  last_up_to, div_ceil, covered, when_covered, get_extent_mapping, set_extent_mapping_range,
  update_volume, find_in, find_extent_for_range, get_volume, mapping_of,
}

-- What is stored at a block after the loop over the blocks of a range.
get-put_blocks :
    (base : CachedExtentMapping) (block_size start index count k : ℕ)
    (m : Map ℕ CachedExtentMapping)
    → get k (put_blocks base block_size start index count m) ≡ (
        if leb (start + index) k && ltb k (start + index + count)
        then some (block_mapping base block_size (k - start))
        else get k m)
unfolding put_blocks
get-put_blocks base block_size start index zero k m = ground arith
get-put_blocks base block_size start index (suc count) k m = ground (
  arith,
  get-put_blocks base block_size start (suc index) count k
      (insert (start + index) (block_mapping base block_size index) m),
  get-insert (start + index) k (block_mapping base block_size index) m,
)

later_of-le :
    (bound k j : ℕ) (v w : CachedExtentMapping) (o : Option (ℕ × CachedExtentMapping))
    → ((i : ℕ) (u : CachedExtentMapping) → o ≡ some (i, u) → i ≤ bound)
    → later_of bound k v o ≡ some (j, w)
    → j ≤ bound
unfolding later_of
later_of-le bound k j v w none below h = ground arith
later_of-le bound k j v w (some (i, u)) below h = ground (arith, below i u refl)

last_up_to-le :
    (bound j : ℕ) (w : CachedExtentMapping) (m : Map ℕ CachedExtentMapping)
    → last_up_to bound m ≡ some (j, w)
    → j ≤ bound
unfolding last_up_to
last_up_to-le bound j w [] h = cc
last_up_to-le bound j w ((k, v) ∷ m) h =
    later_of-le bound k j v w (last_up_to bound m) (λ i u e. last_up_to-le bound i u m e) h

later_of-bound :
    (bound : ℕ) (v : CachedExtentMapping) (o : Option (ℕ × CachedExtentMapping))
    → ((i : ℕ) (u : CachedExtentMapping) → o ≡ some (i, u) → i ≤ bound)
    → later_of bound bound v o ≡ some (bound, v)
unfolding later_of
later_of-bound bound v none below = ground arith
later_of-bound bound v (some (i, u)) below = ground (arith, below i u refl)

later_of-other :
    (bound k : ℕ) (v w : CachedExtentMapping)
    → (k == bound) ≡ false
    → later_of bound k w (some (bound, v)) ≡ some (bound, v)
unfolding later_of
later_of-other bound k v w h = ground arith

-- The entry at the bound itself is the last one up to it.
last_up_to-get :
    (bound : ℕ) (v : CachedExtentMapping) (m : Map ℕ CachedExtentMapping)
    → get bound m ≡ some v
    → last_up_to bound m ≡ some (bound, v)
unfolding last_up_to get
last_up_to-get bound v [] h = cc
last_up_to-get bound v ((k, w) ∷ m) h = elim (Bool-cases (k == bound)) [
  | inl e ↦
      let same = (ℕ-eq.agree_iff k bound).0 e in
      let found : w ≡ v = ground arith in
      rw (same, found)
        (later_of-bound bound v (last_up_to bound m) (λ i u e. last_up_to-le bound i u m e))
  | inr e ↦
      let found : get bound m ≡ some v = ground arith in
      rw (last_up_to-get bound v m found) (later_of-other bound k v w e)
]

div_ceil_self : (n : ℕ) → 0 < n → div_ceil n (max n 1) ≡ 1
unfolding div_ceil
div_ceil_self n positive = div-eq_of_lt-le (max n 1) (ground arith) (ground arith)

one_block :
    (base : CachedExtentMapping) (block_size k index : ℕ)
    → k + 1 < u64_mod
    → covered block_size k k (block_mapping base block_size index) ≡ true
unfolding covered block_mapping
one_block base block_size k index small = ground (arith, div_ceil_self block_size)

module _ (to_string : ℕ → String) where
  range-stored :
      (volume_id : ℕ) (range : BlockRange) (base : CachedExtentMapping) (vol : CachedVolumeInfo)
      (c : MetadataCache)
      → get_volume to_string volume_id c ≡ some vol
      → get_volume to_string volume_id
          (set_extent_mapping_range to_string volume_id range vol.block_size base c)
        ≡ some (record vol {
          extent_mappings =
              put_blocks base vol.block_size range.start 0
                (range.stop - range.start)
                vol.extent_mappings;
        })
  unfolding get_volume set_extent_mapping_range update_volume
  range-stored volume_id range base vol c h =
      rw h (get-insert_self (to_string volume_id) _ c.volumes)

  -- After a range of blocks has been mapped in a cached volume, with blocks of the volume's own
  -- size, a search from any block of the range finds that block's mapping, with the offset of the
  -- block within the extent.
  pub set_extent_mapping_range-find :
      (volume_id k stop : ℕ) (range : BlockRange) (base : CachedExtentMapping)
      (vol : CachedVolumeInfo) (c : MetadataCache)
      → get_volume to_string volume_id c ≡ some vol
      → range.start ≤ k
      → k < range.stop
      → range.stop < u64_mod
      → find_extent_for_range to_string volume_id
          (record { start = k; stop = stop })
          (set_extent_mapping_range to_string volume_id range vol.block_size base c)
        ≡ some (k, block_mapping base vol.block_size (k - range.start))
  unfolding find_extent_for_range find_in get_volume when_covered
  set_extent_mapping_range-find volume_id k stop range base vol c h from before small =
      let stored = range-stored volume_id range base vol c h in
      let at =
        get-put_blocks base vol.block_size range.start 0 (range.stop - range.start) k
          vol.extent_mappings in
      let blocks =
        put_blocks base vol.block_size range.start 0 (range.stop - range.start)
          vol.extent_mappings in
      let last =
        last_up_to-get k (block_mapping base vol.block_size (k - range.start)) blocks
          (ground arith) in
      let fits = one_block base vol.block_size k (k - range.start) (omega arith) in
      rw (stored, last, fits) refl

  -- The mappings of the blocks outside the range, and of the other volumes, are as before.
  pub set_extent_mapping_range-other :
      (volume_id other block_size k : ℕ) (range : BlockRange) (base : CachedExtentMapping)
      (c : MetadataCache)
      → ((to_string other ≢ to_string volume_id) ⊎ (k < range.start)) ⊎ (range.stop ≤ k)
      → get_extent_mapping to_string other k
          (set_extent_mapping_range to_string volume_id range block_size base c)
        ≡ get_extent_mapping to_string other k c
  unfolding get_extent_mapping set_extent_mapping_range update_volume mapping_of
  set_extent_mapping_range-other volume_id other block_size k range base c apart =
      elim (Option-cases (get (to_string volume_id) c.volumes)) [
        | inl e ↦ rw e refl
        | inr (vol, e) ↦
            let count : ℕ = range.stop - range.start in
            let changed : CachedVolumeInfo = record vol {
              extent_mappings = put_blocks base block_size range.start 0 count vol.extent_mappings;
            } in
            rw e (
              ground (
                arith,
                e,
                eq_iff (to_string volume_id) (to_string other),
                get-insert (to_string volume_id) (to_string other) changed c.volumes,
                get-put_blocks base block_size range.start 0 count k vol.extent_mappings,
              ))
      ]
