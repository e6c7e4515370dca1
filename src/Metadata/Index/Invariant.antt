-- ===== src/Metadata/Index/Invariant.antt =====
-- The invariant of the extent mappings and their indices.
use text.Mathlib.TextEquality.{eq_iff}
use blockyard.Common.{
  ℕ-eq, String-eq, ℕ, String, ◌≡◌, ◌≤◌, refl, some, arith, ◌==◌, if◌then◌else◌, ◌<◌, u64_mod,
}
use blockyard.Common.Maps.{Map, get, insert, contains_key, get-insert}
use blockyard.Metadata.State.{
  MetadataState, ExtentMapping, ExtentMappingEntry, mapping_at, mapping_in, initial,
}
use blockyard.Metadata.Commit.{to_mapping, forget, store_mapping}
use blockyard.Metadata.Index.Tags.{IsSound, forget_tag, note_tag, retag, retag-IsSound}
use blockyard.Metadata.Index.Mappings.{
  version_at, key_of, op_at, forget-fields, store-fields, mapping_in-insert,
}

module _ (to_string : ℕ → String) where
  pub record IndexInv (s : MetadataState) : Type 0 where
    pub mapped : (k : String) → contains_key k s.volumes ≡ contains_key k s.extent_mappings
    pub ops_sound : IsSound s.operation_index (op_at to_string s)
    pub versions_sound : IsSound s.extent_version_index (version_at s)
    pub epochs :
        (v : String) (b : ℕ) (m : ExtentMapping) → mapping_at s v b ≡ some m → m.epoch ≤ s.epoch
    pub starts :
        (v : String) (b : ℕ) (m : ExtentMapping)
        → mapping_at s v b ≡ some m
        → m.block_range.start ≡ b
    pub epoch_fits : s.epoch < u64_mod

  pub initial-IndexInv : IndexInv initial
  unfolding mapping_in get
  initial-IndexInv = record {
    mapped = λ k. refl;
    ops_sound = λ i v b h. cc;
    versions_sound = λ i v b h. cc;
    epochs = λ v b m h. cc;
    starts = λ v b m h. cc;
    epoch_fits = omega arith;
  }

  -- Replacing one mapping of a volume, with the index entries of the old one removed.
  module _ (s : MetadataState) (vk : String) (r : ExtentMappingEntry)
      (mappings : Map ℕ ExtentMapping) (here : get vk s.extent_mappings ≡ some mappings) where
    abbrev pub after : MetadataState
    after =
        store_mapping to_string vk r mappings
          (forget to_string (get r.block_range.start mappings) s)

    pub mapping_at-after :
        (v : String) (b : ℕ)
        → mapping_at after v b ≡ (
            if vk == v
            then (if r.block_range.start == b then some (to_mapping r) else mapping_at s v b)
            else mapping_at s v b)
    unfolding mapping_in
    mapping_at-after v b = rw (forget-fields to_string (get r.block_range.start mappings) s) (
        rw (store-fields to_string vk r mappings _) (
          mapping_in-insert s.extent_mappings vk r.block_range.start (to_mapping r) mappings v b
            here))

    pub mapping_at-here : mapping_at s vk r.block_range.start ≡ get r.block_range.start mappings
    unfolding mapping_in
    mapping_at-here = rw (here, mapping_in)

    op_at-after :
        (v : String) (b : ℕ)
        → op_at to_string after v b
          ≡ retag vk r.block_range.start (key_of to_string r.operation_id) (op_at to_string s) v b
    unfolding to_mapping
    op_at-after v b = ground (arith, mapping_at-after v b)

    version_at-after :
        (v : String) (b : ℕ)
        → version_at after v b
          ≡ retag vk r.block_range.start (some r.extent_version) (version_at s) v b
    unfolding to_mapping
    version_at-after v b = ground (arith, mapping_at-after v b)

    pub after_operation_index :
        after.operation_index
        ≡ note_tag
            (key_of to_string r.operation_id)
            (vk, r.block_range.start)
            (forget_tag (op_at to_string s vk r.block_range.start) s.operation_index)
    after_operation_index = rw (
      mapping_at-here,
      forget-fields to_string (get r.block_range.start mappings) s,
      store-fields to_string vk r mappings,
    )

    pub after_version_index :
        after.extent_version_index
        ≡ note_tag
            (some r.extent_version)
            (vk, r.block_range.start)
            (forget_tag (version_at s vk r.block_range.start) s.extent_version_index)
    after_version_index = rw (
      mapping_at-here,
      forget-fields to_string (get r.block_range.start mappings) s,
      store-fields to_string vk r mappings,
    )

    pub after-rest :
        (after.volumes ≡ s.volumes)
        × (after.epoch ≡ s.epoch)
        × (after.extent_mappings
            ≡ insert vk (insert r.block_range.start (to_mapping r) mappings) s.extent_mappings)
    after-rest =
        rw
          (
            forget-fields to_string (get r.block_range.start mappings) s,
            store-fields to_string vk r mappings,
          )
          (refl, refl, refl)

    pub after-IndexInv : IndexInv s → r.epoch ≤ s.epoch → IndexInv after
    unfolding to_mapping
    after-IndexInv inv current = record {
      mapped = λ k. ground (
        arith,
        inv.mapped k,
        eq_iff vk k,
        here,
        after-rest,
        get-insert vk k (insert r.block_range.start (to_mapping r) mappings) s.extent_mappings,
      );
      ops_sound = λ i v b h. rw (op_at-after v b) (
          retag-IsSound s.operation_index (op_at to_string s) inv.ops_sound vk r.block_range.start
            (key_of to_string r.operation_id) i v b (rw after_operation_index at h));
      versions_sound = λ i v b h. rw (version_at-after v b) (
          retag-IsSound s.extent_version_index (version_at s) inv.versions_sound vk
            r.block_range.start (some r.extent_version) i v b (rw after_version_index at h));
      epochs = λ v b m h. ground (arith, mapping_at-after v b, after-rest, inv.epochs v b m);
      starts = λ v b m h. ground (arith, mapping_at-after v b, inv.starts v b m);
      epoch_fits = ground (arith, inv.epoch_fits, after-rest);
    }
