-- ===== src/Client/Cache.antt =====
-- crates/blockyard-ublk/src/metadata_cache.rs: what the client has cached of the metadata. The
-- texts that identify volumes and nodes are built by the argument `to_string`.
use blockyard.Common.{
  ℕ-eq, String-eq, ℕ, ◌+◌, ◌-◌, ◌*◌, ◌/◌, zero, suc, u64_mod, ◌%◌, wrapping_add, String, Bool, true,
  List, [], ◌∷◌, Option, none, some, if◌then◌else◌, leb, ltb, max,
}
use blockyard.Common.Maps.{Map, get, insert, remove}
use blockyard.Protection.{ProtectionPolicy}
use blockyard.Metadata.State.{BlockRange}

pub record CachedExtentMapping : Type 0 where
  pub extent_id : ℕ
  pub extent_version : ℕ
  pub replica_locations : List ℕ
  pub checksums : List (List ℕ)
  pub size_bytes : ℕ
  pub extent_offset : ℕ

pub record CachedVolumeInfo : Type 0 where
  pub volume_id : ℕ
  pub size_bytes : ℕ
  pub block_size : ℕ
  pub protection : ProtectionPolicy
  pub extent_mappings : Map ℕ CachedExtentMapping

pub record NodeAddress : Type 0 where
  pub node_id : ℕ
  pub addr : String

pub record MetadataCache : Type 0 where
  pub epoch : ℕ
  pub cluster_map : Map String NodeAddress
  pub volumes : Map String CachedVolumeInfo

abbrev pub new : MetadataCache
new = record { epoch = 0; cluster_map = []; volumes = [] }

unfoldable pub set_epoch : ℕ → MetadataCache → MetadataCache
set_epoch epoch c = record c { epoch = epoch }

-- The mapping of one block of a range, which `set_extent_mapping_range` stores.
unfoldable pub block_mapping : CachedExtentMapping → ℕ → ℕ → CachedExtentMapping
block_mapping base block_size index = record base {
  size_bytes = block_size;
  extent_offset = (index * block_size) % u64_mod;
}

-- The loop over the blocks `start + index`, `count` of them.
unfoldable pub put_blocks :
    CachedExtentMapping → ℕ → ℕ → ℕ → ℕ → Map ℕ CachedExtentMapping → Map ℕ CachedExtentMapping
put_blocks base block_size start index zero m = m
put_blocks base block_size start index (suc count) m =
    put_blocks base block_size start (suc index) count
      (insert (start + index) (block_mapping base block_size index) m)

-- The entry with the greatest key up to a bound: `range(..=bound).next_back()`.
unfoldable pub later_of :
    ℕ
    → ℕ
    → CachedExtentMapping
    → Option (ℕ × CachedExtentMapping)
    → Option (ℕ × CachedExtentMapping)
later_of bound k v none = if leb k bound then some (k, v) else none
later_of bound k v (some (j, w)) =
    if leb k bound then (if leb j k then some (k, v) else some (j, w)) else some (j, w)

unfoldable pub last_up_to : ℕ → Map ℕ CachedExtentMapping → Option (ℕ × CachedExtentMapping)
unfolding later_of
last_up_to bound [] = none
last_up_to bound ((k, v) ∷ m) = later_of bound k v (last_up_to bound m)

unfoldable pub div_ceil : ℕ → ℕ → ℕ
div_ceil a b = (a + (b - 1)) / b

-- Whether a block stands before the end of the extent that begins at `block_start`.
unfoldable pub covered : ℕ → ℕ → ℕ → CachedExtentMapping → Bool
unfolding div_ceil
covered block_size start block_start mapping =
    if ltb 0 mapping.size_bytes
    then ltb start (wrapping_add block_start (div_ceil mapping.size_bytes (max block_size 1)))
    else true

unfoldable pub when_covered :
    ℕ → ℕ → Option (ℕ × CachedExtentMapping) → Option (ℕ × CachedExtentMapping)
unfolding covered
when_covered block_size start none = none
when_covered block_size start (some (block_start, mapping)) =
    if covered block_size start block_start mapping then some (block_start, mapping) else none

-- A refreshed volume that comes with no mappings keeps those that the cache has.
unfoldable pub kept_mappings :
    CachedVolumeInfo → Map ℕ CachedExtentMapping → Map ℕ CachedExtentMapping → CachedVolumeInfo
kept_mappings v [] (e ∷ es) = record v { extent_mappings = e ∷ es }
kept_mappings v [] [] = v
kept_mappings v (m ∷ ms) existing = v

unfoldable pub kept_volume : Option CachedVolumeInfo → CachedVolumeInfo → CachedVolumeInfo
unfolding kept_mappings
kept_volume none v = v
kept_volume (some existing) v = kept_mappings v v.extent_mappings existing.extent_mappings

unfoldable pub mapping_of : Option CachedVolumeInfo → ℕ → Option CachedExtentMapping
mapping_of none block_start = none
mapping_of (some vol) block_start = get block_start vol.extent_mappings

-- `get_mut`: the stored volume is changed in place, and a volume that is not there stays so.
unfoldable pub update_volume :
    String
    → (Map ℕ CachedExtentMapping → Map ℕ CachedExtentMapping)
    → Option CachedVolumeInfo
    → MetadataCache
    → MetadataCache
update_volume key change none c = c
update_volume key change (some vol) c = record c {
  volumes = insert key (record vol { extent_mappings = change vol.extent_mappings }) c.volumes;
}

unfoldable pub find_in : Option CachedVolumeInfo → BlockRange → Option (ℕ × CachedExtentMapping)
unfolding when_covered last_up_to
find_in none range = none
find_in (some vol) range =
    when_covered vol.block_size range.start (last_up_to range.start vol.extent_mappings)

module _ (to_string : ℕ → String) where
  unfoldable pub get_node : ℕ → MetadataCache → Option NodeAddress
  get_node node_id c = get (to_string node_id) c.cluster_map

  unfoldable pub set_node : ℕ → String → MetadataCache → MetadataCache
  set_node node_id addr c = record c {
    cluster_map =
        insert (to_string node_id) (record { node_id = node_id; addr = addr }) c.cluster_map;
  }

  unfoldable pub remove_node : ℕ → MetadataCache → MetadataCache
  remove_node node_id c = record c { cluster_map = remove (to_string node_id) c.cluster_map }

  unfoldable pub get_volume : ℕ → MetadataCache → Option CachedVolumeInfo
  get_volume volume_id c = get (to_string volume_id) c.volumes

  unfoldable pub set_volume : CachedVolumeInfo → MetadataCache → MetadataCache
  set_volume info c = record c { volumes = insert (to_string info.volume_id) info c.volumes }

  unfoldable pub remove_volume : ℕ → MetadataCache → MetadataCache
  remove_volume volume_id c = record c { volumes = remove (to_string volume_id) c.volumes }

  unfoldable pub get_extent_mapping : ℕ → ℕ → MetadataCache → Option CachedExtentMapping
  unfolding mapping_of
  get_extent_mapping volume_id block_start c =
      mapping_of (get (to_string volume_id) c.volumes) block_start

  unfoldable pub set_extent_mapping : ℕ → ℕ → CachedExtentMapping → MetadataCache → MetadataCache
  unfolding update_volume
  set_extent_mapping volume_id block_start mapping c =
      update_volume (to_string volume_id) (insert block_start mapping)
        (get (to_string volume_id) c.volumes) c

  unfoldable pub set_extent_mapping_range :
      ℕ → BlockRange → ℕ → CachedExtentMapping → MetadataCache → MetadataCache
  unfolding update_volume put_blocks
  set_extent_mapping_range volume_id range block_size base c =
      update_volume (to_string volume_id)
        (put_blocks base block_size range.start 0 (range.stop - range.start))
        (get (to_string volume_id) c.volumes) c

  unfoldable pub find_extent_for_range :
      ℕ → BlockRange → MetadataCache → Option (ℕ × CachedExtentMapping)
  unfolding find_in
  find_extent_for_range volume_id range c = find_in (get (to_string volume_id) c.volumes) range

  unfoldable pub node_map : List NodeAddress → Map String NodeAddress → Map String NodeAddress
  node_map [] m = m
  node_map (n ∷ ns) m = node_map ns (insert (to_string n.node_id) n m)

  unfoldable pub volume_map :
      Map String CachedVolumeInfo
      → List CachedVolumeInfo
      → Map String CachedVolumeInfo
      → Map String CachedVolumeInfo
  unfolding kept_volume
  volume_map old [] m = m
  volume_map old (v ∷ vs) m =
      volume_map old vs
        (insert (to_string v.volume_id) (kept_volume (get (to_string v.volume_id) old) v) m)

  unfoldable pub refresh :
      ℕ → List NodeAddress → List CachedVolumeInfo → MetadataCache → MetadataCache
  unfolding node_map volume_map
  refresh epoch nodes volumes c = record {
    epoch = epoch;
    cluster_map = node_map nodes [];
    volumes = volume_map c.volumes volumes [];
  }
