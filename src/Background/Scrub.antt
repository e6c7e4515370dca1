-- ===== src/Background/Scrub.antt =====
-- crates/blockyard-storage/src/background/scrub.rs. What meets a scrub from outside is the record
-- `ScrubSurroundings`: what the reader answers for an extent (its checksum, or the text of an error),
-- and, by the disk and the number of extents before, whether the rate limiter ever grants the tokens
-- and whether the channel takes a notification. A text is its bytes.
use blockyard.Common.{
  ℕ, suc, Bool, true, false, Option, none, some, List, [], ◌∷◌, ◌++◌, if◌then◌else◌, nat_eq,
  bytes_eq, ◌&&◌,
}

pub record ScrubExtentEntry : Type 0 where
  pub extent_id : ℕ
  pub disk_id : ℕ
  pub expected_checksum : List ℕ
  pub version : ℕ

pub data ReadAnswer : Type 0 where
  computed_checksum : List ℕ → ReadAnswer
  read_failed : List ℕ → ReadAnswer

pub data CorruptionReason : Type 0 where
  checksum_mismatch : List ℕ → List ℕ → CorruptionReason
  read_error : List ℕ → CorruptionReason
  missing_metadata : CorruptionReason

pub record CorruptionNotification : Type 0 where
  pub disk_id : ℕ
  pub extent_id : ℕ
  pub reason : CorruptionReason

-- Without the time that the pass took.
pub record ScrubResult : Type 0 where
  pub disk_id : ℕ
  pub extents_checked : ℕ
  pub checksum_errors : ℕ
  pub read_errors : ℕ
  pub metadata_errors : ℕ

pub record ScrubWorker : Type 0 where
  pub results : List ScrubResult

unfoldable pub starts_with : List ℕ → List ℕ → Bool
starts_with [] text = true
starts_with (p ∷ ps) [] = false
starts_with (p ∷ ps) (t ∷ ts) = nat_eq p t && starts_with ps ts

-- `contains` of a text.
unfoldable pub contains : List ℕ → List ℕ → Bool
unfolding starts_with
contains pattern [] = starts_with pattern []
contains pattern (t ∷ ts) = if starts_with pattern (t ∷ ts) then true else contains pattern ts

-- The bytes of "metadata".
abbrev pub metadata_text : List ℕ
metadata_text = 109 ∷ 101 ∷ 116 ∷ 97 ∷ 100 ∷ 97 ∷ 116 ∷ 97 ∷ []

pub record ScrubSurroundings : Type 0 where
  pub read_extent : ℕ → ℕ → ℕ → ReadAnswer
  pub grants : ℕ → ℕ → Bool
  pub delivers : ℕ → ℕ → Bool

-- A notification that the channel does not take is dropped.
abbrev pub notify :
    Bool
    → CorruptionReason
    → ScrubExtentEntry
    → ScrubResult × List CorruptionNotification
    → ScrubResult × List CorruptionNotification
notify delivered reason entry (result, sent) = (
  result,
  if delivered
      then sent
        ++ ((record { disk_id = result.disk_id; extent_id = entry.extent_id; reason = reason })
            ∷ [])
      else sent,
)

-- One round of the loop of `scrub_disk`, after the extent has been counted.
unfoldable pub on_answer :
    Bool
    → ScrubExtentEntry
    → ReadAnswer
    → ScrubResult × List CorruptionNotification
    → ScrubResult × List CorruptionNotification
unfolding bytes_eq contains
on_answer delivered entry (computed_checksum actual) (result, sent) =
    if bytes_eq actual entry.expected_checksum
    then (result, sent)
    else notify delivered (checksum_mismatch entry.expected_checksum actual) entry
        (record result { checksum_errors = suc result.checksum_errors }, sent)
on_answer delivered entry (read_failed e) (result, sent) =
    if contains metadata_text e
    then notify delivered missing_metadata entry
        (record result { metadata_errors = suc result.metadata_errors }, sent)
    else notify delivered (read_error e) entry
        (record result { read_errors = suc result.read_errors }, sent)

abbrev pub count_extent :
    ScrubResult × List CorruptionNotification → ScrubResult × List CorruptionNotification
count_extent (result, sent) = (record result { extents_checked = suc result.extents_checked }, sent)

abbrev pub then_disks :
    (List CorruptionNotification → Option (List ScrubResult × List CorruptionNotification))
    → Option (ScrubResult × List CorruptionNotification)
    → Option (List ScrubResult × List CorruptionNotification)
then_disks next none = none
then_disks next (some (result, sent)) = elim (next sent) [
  | none ↦ none
  | some r ↦ some (result ∷ r.0, r.1)
]

abbrev pub on_pass :
    ScrubWorker
    → Option (List ScrubResult × List CorruptionNotification)
    → Option (ScrubWorker × List ScrubResult × List CorruptionNotification)
on_pass w none = none
on_pass w (some (results, sent)) = some (record w { results = results }, results, sent)

module _ (env : ScrubSurroundings) where
  -- The loop of `scrub_disk`, or none where it waits for its tokens for ever.
  unfoldable pub scrub_loop :
      ℕ
      → List ScrubExtentEntry
      → ScrubResult × List CorruptionNotification
      → Option (ScrubResult × List CorruptionNotification)
  unfolding on_answer
  scrub_loop index [] rs = some rs
  scrub_loop index (entry ∷ rest) rs =
      let next = scrub_loop (suc index) rest (
        on_answer (env.delivers rs.0.disk_id index) entry
          (env.read_extent rs.0.disk_id entry.extent_id entry.version) (count_extent rs)) in
      if env.grants rs.0.disk_id index then next else none

  unfoldable pub scrub_disk :
      (ℕ → List ScrubExtentEntry)
      → ℕ
      → List CorruptionNotification
      → Option (ScrubResult × List CorruptionNotification)
  unfolding scrub_loop
  scrub_disk list_extents disk_id sent = scrub_loop 0 (list_extents disk_id) (
    record {
      disk_id = disk_id;
      extents_checked = 0;
      checksum_errors = 0;
      read_errors = 0;
      metadata_errors = 0;
    },
    sent,
  )

  unfoldable pub scrub_disks :
      (ℕ → List ScrubExtentEntry)
      → List ℕ
      → List CorruptionNotification
      → Option (List ScrubResult × List CorruptionNotification)
  unfolding scrub_disk
  scrub_disks list_extents [] sent = some ([], sent)
  scrub_disks list_extents (disk_id ∷ disks) sent =
      then_disks (scrub_disks list_extents disks) (scrub_disk list_extents disk_id sent)

  unfoldable pub scrub_pass :
      (ℕ → List ScrubExtentEntry)
      → List ℕ
      → ScrubWorker
      → Option (ScrubWorker × List ScrubResult × List CorruptionNotification)
  unfolding scrub_disks
  scrub_pass list_extents disks w = on_pass w (scrub_disks list_extents disks [])
