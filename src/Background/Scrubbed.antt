-- ===== src/Background/Scrubbed.antt =====
-- What a scrub reports (crates/blockyard-storage/src/background/scrub.rs).
use blockyard.Common.{
  ℕ, suc, ◌≡◌, ◌+◌, Bool, true, false, List, [], ◌∷◌, ◌++◌, length, keep, map, bytes_eq, not, ◌&&◌,
}
use blockyard.Background.Scrub.{
  ScrubExtentEntry, ReadAnswer, computed_checksum, read_failed, CorruptionNotification, ScrubResult,
  ScrubSurroundings,
}

-- Whether an answer is that an extent is as expected.
abbrev pub is_intact : ScrubExtentEntry → ReadAnswer → Bool
is_intact entry (computed_checksum actual) = bytes_eq actual entry.expected_checksum
is_intact entry (read_failed e) = false

abbrev pub reported : CorruptionNotification → ℕ
reported n = n.extent_id

abbrev pub errors : ScrubResult → ℕ
errors r = r.checksum_errors + r.read_errors + r.metadata_errors

-- The id of one extent, if it is to be reported.
abbrev pub id_if : Bool → ℕ → List ℕ
id_if true id = id ∷ []
id_if false id = []

module _ (env : ScrubSurroundings) (disk_id : ℕ) where
  abbrev pub is_damaged : ScrubExtentEntry → Bool
  is_damaged entry = not (is_intact entry (env.read_extent disk_id entry.extent_id entry.version))

  -- The damaged extents whose notification the channel takes, from number `index` on.
  abbrev pub to_report : ℕ → List ScrubExtentEntry → List ℕ
  to_report index [] = []
  to_report index (entry ∷ rest) =
      id_if (is_damaged entry && env.delivers disk_id index) entry.extent_id
      ++ to_report (suc index) rest

  -- What a scrub of some entries of a disk comes to.
  abbrev Reports :
      ℕ
      → List ScrubExtentEntry
      → ScrubResult × List CorruptionNotification
      → ScrubResult × List CorruptionNotification
      → Type 0
  Reports index entries rs rs' =
      (map reported rs'.1 ≡ map reported rs.1 ++ to_report index entries)
      × (errors rs'.0 ≡ errors rs.0 + length (keep is_damaged entries))
      × (rs'.0.extents_checked ≡ rs.0.extents_checked + length entries)
