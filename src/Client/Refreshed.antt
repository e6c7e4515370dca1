-- ===== src/Client/Refreshed.antt =====
-- What a refresh leaves in the cache (crates/blockyard-ublk/src/metadata_cache.rs).
use blockyard.Common.{
  ℕ-eq, String-eq, ℕ, ◌≡◌, refl, String, List, [], ◌∷◌, Option, none, some, inl, inr, if◌then◌else◌,
  ◌==◌, Bool-cases, ap,
}
use text.Mathlib.TextEquality.{eq_iff}
use blockyard.Common.Maps.{Map, get, insert, get-insert}
use blockyard.Client.Cache.{
  MetadataCache, CachedExtentMapping, CachedVolumeInfo, NodeAddress, kept_mappings, kept_volume,
  volume_map, refresh, get_extent_mapping, mapping_of,
}

-- A volume as the refresh stores it.
abbrev stored : Option CachedVolumeInfo → Option CachedVolumeInfo → Option CachedVolumeInfo
stored existing none = none
stored existing (some v) = some (kept_volume existing v)

module _ (to_string : ℕ → String) where
  -- The last volume of a snapshot with a key: it is the one that is left in the map.
  abbrev pub last_listed :
      String → List CachedVolumeInfo → Option CachedVolumeInfo → Option CachedVolumeInfo
  last_listed key [] found = found
  last_listed key (v ∷ vs) found =
      last_listed key vs (if to_string v.volume_id == key then some v else found)

  get-volume_map :
      (key : String) (old : Map String CachedVolumeInfo) (vs : List CachedVolumeInfo)
      (m : Map String CachedVolumeInfo) (found : Option CachedVolumeInfo)
      → get key m ≡ stored (get key old) found
      → get key (volume_map to_string old vs m) ≡ stored (get key old) (last_listed key vs found)
  unfolding volume_map
  get-volume_map key old [] m found h = h
  get-volume_map key old (v ∷ vs) m found h =
      let entry = kept_volume (get (to_string v.volume_id) old) v in
      get-volume_map key old vs (insert (to_string v.volume_id) entry m)
        (if to_string v.volume_id == key then some v else found)
        (elim (Bool-cases (to_string v.volume_id == key)) [
          | inl e ↦
              rw (get-insert (to_string v.volume_id) key entry m, e)
                (ap (λ (j : String). some (kept_volume (get j old) v))
                  ((eq_iff (to_string v.volume_id) key).0 e))
          | inr e ↦ rw (get-insert (to_string v.volume_id) key entry m, e) h
        ])

-- The mapping of a block in a snapshot's mappings, or the cached one where it has none at all.
abbrev or_cached :
    Map ℕ CachedExtentMapping → ℕ → Option CachedExtentMapping → Option CachedExtentMapping
or_cached [] k cached = cached
or_cached (e ∷ es) k cached = get k (e ∷ es)

-- The mapping that a listed volume has after the refresh, by the one it had in the cache.
abbrev pub refreshed_at :
    Option CachedVolumeInfo → ℕ → Option CachedExtentMapping → Option CachedExtentMapping
refreshed_at none k cached = none
refreshed_at (some v) k cached = or_cached v.extent_mappings k cached

alone : (m : Map ℕ CachedExtentMapping) (k : ℕ) → get k m ≡ or_cached m k none
unfolding get
alone [] k = refl
alone (e ∷ es) k = refl

kept-at :
    (v : CachedVolumeInfo) (m n : Map ℕ CachedExtentMapping) (k : ℕ)
    → v.extent_mappings ≡ m
    → get k (kept_mappings v m n).extent_mappings ≡ or_cached m k (get k n)
unfolding kept_mappings get
kept-at v [] [] k e = rw e refl
kept-at v [] (n ∷ ns) k e = refl
kept-at v (m ∷ ms) n k e = rw e refl

stored-mapping :
    (existing listed : Option CachedVolumeInfo) (k : ℕ)
    → mapping_of (stored existing listed) k ≡ refreshed_at listed k (mapping_of existing k)
unfolding mapping_of kept_volume
stored-mapping existing none k = refl
stored-mapping none (some v) k = alone v.extent_mappings k
stored-mapping (some w) (some v) k = kept-at v v.extent_mappings w.extent_mappings k refl

-- After a refresh the mapping of a block is the one that the snapshot gives it, by the last entry
-- for the volume; but a volume that comes with no mappings at all keeps those that were cached, and
-- one that the snapshot does not list has none.
pub refresh-get_extent_mapping :
    (to_string : ℕ → String) (volume_id k epoch : ℕ) (nodes : List NodeAddress)
    (volumes : List CachedVolumeInfo) (c : MetadataCache)
    → get_extent_mapping to_string volume_id k (refresh to_string epoch nodes volumes c)
      ≡ refreshed_at
          (last_listed to_string (to_string volume_id) volumes none)
          k
          (get_extent_mapping to_string volume_id k c)
unfolding get_extent_mapping refresh get
refresh-get_extent_mapping to_string volume_id k epoch nodes volumes c =
    let key = to_string volume_id in
    rw (get-volume_map to_string key c.volumes volumes [] none refl)
      (stored-mapping (get key c.volumes) (last_listed to_string key volumes none) k)
