-- ===== src/Metadata/Index/Volumes.antt =====
-- `CreateVolume`, `DeleteVolume` and `AdvanceEpoch` keep the invariant of the indices.
use text.Mathlib.TextEquality.{eq_iff}
use blockyard.Common.{
  ℕ-eq, String-eq, ℕ, String, ◌≡◌, refl, sym, ◌∙◌, ap, some, [], arith, false, map,
}
use blockyard.Common.Maps.{Map, get, insert, remove, values, contains_key, get-insert, get-remove}
use blockyard.Metadata.State.{MetadataState, VolumeMetadata, ExtentMapping, mapping_at}
use blockyard.Metadata.Apply.{forget_all}
use blockyard.Metadata.Index.Tags.{IsSound-cong, drop_volume, drop-IsSound}
use blockyard.Metadata.Index.Mappings.{
  version_of, version_at, op_of, op_at, forget_all-fields, mapping_in-new, mapping_in-remove,
  volume-tag,
}
use blockyard.Metadata.Index.Invariant.{IndexInv}

module _ (to_string : ℕ → String) where
  -- A new volume has no mapping, and had none.
  pub added-IndexInv :
      (s : MetadataState) (key : String) (info : VolumeMetadata)
      → IndexInv to_string s
      → contains_key key s.volumes ≡ false
      → IndexInv to_string (record s {
        volumes = insert key info s.volumes;
        extent_mappings = insert key [] s.extent_mappings;
      })
  added-IndexInv s key info inv fresh = record {
    mapped = λ k. ground (
      arith,
      eq_iff key k,
      inv.mapped k,
      get-insert key k info s.volumes,
      get-insert key k [] s.extent_mappings,
    );
    ops_sound =
        IsSound-cong s.operation_index (op_at to_string s) (op_at to_string s') inv.ops_sound
          (λ v b. ap (op_of to_string) (same v b));
    versions_sound =
        IsSound-cong s.extent_version_index (version_at s) (version_at s') inv.versions_sound
          (λ v b. ap version_of (same v b));
    epochs = λ v b m h. inv.epochs v b m (sym (same v b) ∙ h);
    starts = λ v b m h. inv.starts v b m (sym (same v b) ∙ h);
    epoch_fits = inv.epoch_fits;
  }
    where
      s' : MetadataState
      s' = record s {
        volumes = insert key info s.volumes;
        extent_mappings = insert key [] s.extent_mappings;
      }

      same : (v : String) (b : ℕ) → mapping_at s' v b ≡ mapping_at s v b
      same v b = mapping_in-new s.extent_mappings key v b (sym (inv.mapped key) ∙ fresh)

  -- What a deleted volume leaves behind.
  pub deleted-IndexInv :
      (s : MetadataState) (key : String) (mappings : Map ℕ ExtentMapping)
      → IndexInv to_string s
      → get key s.extent_mappings ≡ some mappings
      → IndexInv to_string (
          forget_all to_string (values mappings) (record s {
            volumes = remove key s.volumes;
            extent_mappings = remove key s.extent_mappings;
          }))
  deleted-IndexInv s key mappings inv here =
      rw (forget_all-fields to_string (values mappings)) (record {
        mapped = λ k. ground (
          arith,
          eq_iff key k,
          inv.mapped k,
          get-remove key k s.volumes,
          get-remove key k s.extent_mappings,
        );
        ops_sound =
            IsSound-cong _ (drop_volume key (op_at to_string s)) _
              (drop-IsSound s.operation_index (op_at to_string s) key
                (map (λ m. op_of to_string (some m)) (values mappings)) inv.ops_sound
                (λ b i. volume-tag (op_of to_string) s.extent_mappings key mappings b i refl here))
              (λ v b. ground (arith, mapping_in-remove s.extent_mappings key v b));
        versions_sound =
            IsSound-cong _ (drop_volume key (version_at s)) _
              (drop-IsSound s.extent_version_index (version_at s) key
                (map (λ m. version_of (some m)) (values mappings)) inv.versions_sound
                (λ b i. volume-tag version_of s.extent_mappings key mappings b i refl here))
              (λ v b. ground (arith, mapping_in-remove s.extent_mappings key v b));
        epochs = λ v b m h.
            ground (arith, mapping_in-remove s.extent_mappings key v b, inv.epochs v b m);
        starts = λ v b m h.
            ground (arith, mapping_in-remove s.extent_mappings key v b, inv.starts v b m);
        epoch_fits = inv.epoch_fits;
      })
