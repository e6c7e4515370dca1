-- ===== src/Client/Resolved.antt =====
-- One ambiguous write resolved, and the stale epochs of several callers handled (ambiguous_write.rs
-- and stale_epoch.rs of crates/blockyard-ublk/src).
use blockyard.Common.{
  ℕ-eq, String-eq, ℕ, ◌≡◌, ◌<◌, ◌≤◌, ◌↔◌, refl, max, wrapping_add, String, true, false, List, [],
  ◌∷◌, All, some, if◌then◌else◌, ltb, ◌==◌, ==_refl, arith,
}
use blockyard.Common.Maps.{insert, get-insert_self}
use blockyard.Client.Results.{Result, ok}
use blockyard.Client.Watermark.{advance_to}
use blockyard.Client.Cache.{
  MetadataCache, CachedVolumeInfo, set_extent_mapping, update_volume, get_extent_mapping,
  get_volume, find_extent_for_range, find_in, when_covered, covered, last_up_to, later_of,
}
use blockyard.Client.Recovery.{
  CommittedMapping, fresh, check, check_against, StaleEpochHandler, handle_stale_epoch, handle_all,
  Shared, advance, cached, committed, Lookup, cache_committed, on_lookup, resolve,
}
use blockyard.Client.RecoveryLaws.{get-set_extent_mapping, cache_committed-same}

ltb-not : (m n : ℕ) → n ≤ m → ltb m n ≡ false
ltb-not m n le = ground arith

handle_all-settled :
    (refresh_metadata : MetadataCache → MetadataCache × Result ℕ) (others : List ℕ) (count : ℕ)
    (c : MetadataCache)
    → All (λ (e : ℕ). e < c.epoch) others
    → handle_all refresh_metadata others (record { paused = false; refresh_count = count }, c)
      ≡ (record { paused = false; refresh_count = count }, c)
unfolding handle_all handle_stale_epoch
handle_all-settled refresh_metadata [] count c below = refl
handle_all-settled refresh_metadata (e ∷ others) count c (b, below) =
    let passed : ltb e c.epoch ≡ true = ground arith in
    rw passed (handle_all-settled refresh_metadata others count c below)

-- When callers that have met stale epochs come one after the other, none of them earlier than the
-- cache, and a refresh brings the cache past all of them, the metadata is refreshed once for all of
-- them, and writes are not left paused.
pub handle_all-once :
    (refresh_metadata : MetadataCache → MetadataCache × Result ℕ) (epoch stale_epoch : ℕ)
    (others : List ℕ) (h : StaleEpochHandler) (c c' : MetadataCache)
    → refresh_metadata c ≡ (c', ok epoch)
    → c.epoch ≤ stale_epoch
    → All (λ (e : ℕ). e < c'.epoch) others
    → handle_all refresh_metadata (stale_epoch ∷ others) (h, c)
      ≡ (record { paused = false; refresh_count = wrapping_add h.refresh_count 1 }, c')
unfolding handle_all handle_stale_epoch
handle_all-once refresh_metadata epoch stale_epoch others h c c' answer behind below =
    rw (ltb-not stale_epoch c.epoch behind, answer)
      (handle_all-settled refresh_metadata others (wrapping_add h.refresh_count 1) c' below)

module _ (to_string : ℕ → String) (lookup_operation : Lookup) (volume_id operation_id : ℕ) where
  -- Resolving a committed operation of a cached volume returns its epoch and version, raises the
  -- watermark to its epoch, and caches its mapping at its first block and nothing else; the cache is
  -- then fresh only if its epoch, which is left alone, had already reached that watermark.
  pub resolve-committed :
      (m : CommittedMapping) (vol : CachedVolumeInfo) (k : ℕ) (s : Shared)
      → lookup_operation operation_id ≡ ok (some m)
      → get_volume to_string volume_id s.cache ≡ some vol
      → let (s', result) = resolve to_string lookup_operation volume_id operation_id s in
        (result ≡ ok (committed m.epoch m.extent_version))
        × (s'.watermark ≡ max m.epoch s.watermark)
        × (get_extent_mapping to_string volume_id k s'.cache ≡ (
            if m.block_range.start == k
            then some (cached m)
            else get_extent_mapping to_string volume_id k s.cache))
        × ((check s'.cache s'.watermark ≡ fresh) ↔ (max m.epoch s.watermark ≤ s.cache.epoch))
  unfolding resolve on_lookup advance advance_to check_against cache_committed
  resolve-committed m vol k s found has =
      let same = cache_committed-same to_string volume_id m s in
      let set =
        get-set_extent_mapping to_string volume_id volume_id k m.block_range.start (cached m)
          s.cache in
      rw found (refl, ground arith, ground (arith, ==_refl (to_string volume_id)), ground arith)

  -- The mapping that a resolution caches in a volume with no other is what a search finds from every
  -- block after the mapping's first, however short the mapping's range is.
  pub resolve-covers :
      (m : CommittedMapping) (vol : CachedVolumeInfo) (k stop : ℕ) (s : Shared)
      → lookup_operation operation_id ≡ ok (some m)
      → get_volume to_string volume_id s.cache ≡ some vol
      → vol.extent_mappings ≡ []
      → m.block_range.start ≤ k
      → find_extent_for_range to_string volume_id
          (record { start = k; stop = stop })
          (resolve to_string lookup_operation volume_id operation_id s).0.cache
        ≡ some (m.block_range.start, cached m)
  unfolding resolve on_lookup advance cache_committed set_extent_mapping update_volume get_volume
      find_extent_for_range find_in when_covered covered last_up_to later_of insert
  resolve-covers m vol k stop s found has empty from =
      let changed : CachedVolumeInfo = record vol {
        extent_mappings = insert m.block_range.start (cached m) vol.extent_mappings;
      } in
      rw (found, has, get-insert_self (to_string volume_id) changed s.cache.volumes, empty)
        (ground arith)
