-- ===== src/Metadata/Index/Mappings.antt =====
-- The mappings that a state holds, by location, and their tags.
use text.Mathlib.TextEquality.{eq_iff}
use blockyard.Common.{
  false, ℕ-eq, String-eq, ℕ, String, ◌≡◌, refl, Option, none, some, List, [], ◌∷◌, arith, ◌==◌,
  if◌then◌else◌, map,
}
use blockyard.Common.Maps.{Map, get, insert, remove, values, contains_key, get-insert, get-remove}
use blockyard.Metadata.State.{
  MetadataState, ExtentMapping, ExtentMappingEntry, mapping_at, mapping_in,
}
use blockyard.Metadata.Commit.{to_mapping, forget, store_mapping, forget_operation, note_operation}
use blockyard.Metadata.Apply.{forget_all}
use blockyard.Metadata.Index.Tags.{forget_tag, note_tag, forget_tags, Avoids}

abbrev pub version_of : Option ExtentMapping → Option ℕ
version_of none = none
version_of (some m) = some m.extent_version

abbrev pub version_at : MetadataState → String → ℕ → Option ℕ
version_at s v b = version_of (mapping_at s v b)

module _ (to_string : ℕ → String) where
  abbrev pub key_of : Option ℕ → Option String
  key_of none = none
  key_of (some op_id) = some (to_string op_id)

  abbrev pub op_of : Option ExtentMapping → Option String
  op_of none = none
  op_of (some m) = key_of m.operation_id

  abbrev pub op_at : MetadataState → String → ℕ → Option String
  op_at s v b = op_of (mapping_at s v b)

  pub forget-fields :
      (old : Option ExtentMapping) (s : MetadataState)
      → forget to_string old s ≡ record s {
        operation_index = forget_tag (op_of old) s.operation_index;
        extent_version_index = forget_tag (version_of old) s.extent_version_index;
      }
  unfolding forget forget_operation
  forget-fields none s = refl
  forget-fields (some m) s = ground arith

  pub store-fields :
      (vol_key : String) (r : ExtentMappingEntry) (mappings : Map ℕ ExtentMapping)
      (s : MetadataState)
      → store_mapping to_string vol_key r mappings s ≡ record s {
        operation_index =
            note_tag (key_of r.operation_id) (vol_key, r.block_range.start) s.operation_index;
        extent_version_index =
            note_tag (some r.extent_version) (vol_key, r.block_range.start) s.extent_version_index;
        extent_mappings =
            insert vol_key (insert r.block_range.start (to_mapping r) mappings) s.extent_mappings;
      }
  unfolding store_mapping note_operation
  store-fields vol_key r mappings s = ground arith

  pub forget_all-fields :
      (ms : List ExtentMapping) (s : MetadataState)
      → forget_all to_string ms s ≡ record s {
        operation_index = forget_tags (map (λ m. op_of (some m)) ms) s.operation_index;
        extent_version_index =
            forget_tags (map (λ m. version_of (some m)) ms) s.extent_version_index;
      }
  unfolding forget_all
  forget_all-fields [] s = refl
  forget_all-fields (m ∷ ms) s = rw (forget-fields (some m) s) (forget_all-fields ms _)

-- A write to one location of a volume that is there.
pub mapping_in-insert :
    (em : Map String (Map ℕ ExtentMapping)) (vk : String) (start : ℕ) (m : ExtentMapping)
    (mappings : Map ℕ ExtentMapping) (v : String) (b : ℕ)
    → get vk em ≡ some mappings
    → mapping_in (insert vk (insert start m mappings) em) v b
      ≡ (if vk == v then (if start == b then some m else mapping_in em v b) else mapping_in em v b)
unfolding mapping_in
mapping_in-insert em vk start m mappings v b h = ground (
  arith,
  eq_iff vk v,
  get-insert vk v (insert start m mappings) em,
  get-insert start b m mappings,
)

pub mapping_in-remove :
    (em : Map String (Map ℕ ExtentMapping)) (vk v : String) (b : ℕ)
    → mapping_in (remove vk em) v b ≡ (if vk == v then none else mapping_in em v b)
unfolding mapping_in
mapping_in-remove em vk v b = ground (arith, get-remove vk v em)

-- A new volume has no mapping, and had none.
pub mapping_in-new :
    (em : Map String (Map ℕ ExtentMapping)) (vk v : String) (b : ℕ)
    → contains_key vk em ≡ false
    → mapping_in (insert vk [] em) v b ≡ mapping_in em v b
unfolding mapping_in get
mapping_in-new em vk v b fresh = ground (arith, eq_iff vk v, get-insert vk v [] em)

-- Every tag of a volume is among those of its values.
values-tag :
    {I : Type 0} (tag : Option ExtentMapping → Option I) (mappings : Map ℕ ExtentMapping) (b : ℕ)
    (i : I)
    → tag none ≡ none
    → tag (get b mappings) ≡ some i
    → ¬ Avoids i (map (λ m. tag (some m)) (values mappings))
unfolding get values
values-tag tag [] b i n t a = cc
values-tag tag ((j, w) ∷ ms) b i n t a = ground (arith, values-tag tag ms b i)

pub volume-tag :
    {I : Type 0} (tag : Option ExtentMapping → Option I) (em : Map String (Map ℕ ExtentMapping))
    (vk : String) (mappings : Map ℕ ExtentMapping) (b : ℕ) (i : I)
    → tag none ≡ none
    → get vk em ≡ some mappings
    → tag (mapping_in em vk b) ≡ some i
    → ¬ Avoids i (map (λ m. tag (some m)) (values mappings))
unfolding mapping_in
volume-tag tag em vk mappings b i n here t =
    values-tag tag mappings b i n (rw (here, mapping_in) at t)
