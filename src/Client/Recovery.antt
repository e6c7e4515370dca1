-- ===== src/Client/Recovery.antt =====
-- crates/blockyard-ublk/src/freshness.rs, stale_epoch.rs, ambiguous_write.rs and crash_recovery.rs:
-- how the client comes back to the committed metadata. What the metadata service answers is given by
-- arguments: the epoch, the lookup of an operation, and the effect of a refresh on the cache.
use blockyard.Common.{
  ℕ, suc, wrapping_add, String, Bool, false, List, [], ◌∷◌, Option, none, some, if◌then◌else◌, leb,
  ltb,
}
use blockyard.Metadata.State.{BlockRange}
use blockyard.Client.Results.{Result, ok, err}
use blockyard.Client.Watermark.{WriteWatermark, advance_to}
use blockyard.Client.Cache.{MetadataCache, CachedExtentMapping, set_epoch, set_extent_mapping}

pub record CommittedMapping : Type 0 where
  pub extent_id : ℕ
  pub extent_version : ℕ
  pub epoch : ℕ
  pub block_range : BlockRange
  pub replica_locations : List ℕ
  pub checksums : List (List ℕ)

pub data FreshnessStatus : Type 0 where
  fresh : FreshnessStatus
  stale : ℕ → ℕ → FreshnessStatus

-- `check_against`; `check` is this with the watermark's epoch.
unfoldable pub check_against : MetadataCache → ℕ → FreshnessStatus
check_against c required = if leb required c.epoch then fresh else stale c.epoch required

abbrev pub check : MetadataCache → WriteWatermark → FreshnessStatus
check c w = check_against c w

pub record StaleEpochHandler : Type 0 where
  pub paused : Bool
  pub refresh_count : ℕ

abbrev pub new : StaleEpochHandler
new = record { paused = false; refresh_count = 0 }

-- `handle_stale_epoch` while it holds `refresh_lock`, by the effect of `refresh_metadata`.
unfoldable pub handle_stale_epoch :
    (MetadataCache → MetadataCache × Result ℕ)
    → ℕ
    → StaleEpochHandler × MetadataCache
    → (StaleEpochHandler × MetadataCache) × Result ℕ
handle_stale_epoch refresh_metadata stale_epoch (h, c) =
    if ltb stale_epoch c.epoch
    then ((record h { paused = false }, c), ok c.epoch)
    else let (c', result) = refresh_metadata c in
      ((record { paused = false; refresh_count = wrapping_add h.refresh_count 1 }, c'), result)

-- Callers that the lock lets in one after the other, with the stale epochs that they have met.
unfoldable pub handle_all :
    (MetadataCache → MetadataCache × Result ℕ)
    → List ℕ
    → StaleEpochHandler × MetadataCache
    → StaleEpochHandler × MetadataCache
unfolding handle_stale_epoch
handle_all refresh_metadata [] s = s
handle_all refresh_metadata (e ∷ es) s =
    handle_all refresh_metadata es (handle_stale_epoch refresh_metadata e s).0

-- The cache and the watermark that the resolvers share.
pub record Shared : Type 0 where
  pub cache : MetadataCache
  pub watermark : WriteWatermark

unfoldable pub advance : ℕ → Shared → Shared
unfolding advance_to
advance epoch s = record s { watermark = (advance_to epoch s.watermark).0 }

-- The mapping that both resolvers cache for a committed operation.
abbrev pub cached : CommittedMapping → CachedExtentMapping
cached m = record {
  extent_id = m.extent_id;
  extent_version = m.extent_version;
  replica_locations = m.replica_locations;
  checksums = m.checksums;
  size_bytes = 0;
  extent_offset = 0;
}

pub data AmbiguousWriteOutcome : Type 0 where
  committed : ℕ → ℕ → AmbiguousWriteOutcome
  not_committed : AmbiguousWriteOutcome

pub record RecoveryResult : Type 0 where
  pub recovered_epoch : ℕ
  pub committed_operations : ℕ
  pub uncommitted_operations : ℕ

abbrev pub Lookup : Type 0
Lookup = ℕ → Result (Option CommittedMapping)

-- The results of a batch, with one more in front.
unfoldable pub with_result :
    ℕ
    → AmbiguousWriteOutcome
    → Shared × Result (List (ℕ × AmbiguousWriteOutcome))
    → Shared × Result (List (ℕ × AmbiguousWriteOutcome))
with_result op outcome (s, err e) = (s, err e)
with_result op outcome (s, ok results) = (s, ok ((op, outcome) ∷ results))

unfoldable pub batch_step :
    (Shared → Shared × Result (List (ℕ × AmbiguousWriteOutcome)))
    → ℕ
    → Shared × Result AmbiguousWriteOutcome
    → Shared × Result (List (ℕ × AmbiguousWriteOutcome))
unfolding with_result
batch_step next op (s, err e) = (s, err e)
batch_step next op (s, ok outcome) = with_result op outcome (next s)

unfoldable pub recovered : ℕ → Shared × Result (ℕ × ℕ) → Shared × Result RecoveryResult
unfolding advance
recovered epoch (s, err e) = (s, err e)
recovered epoch (s, ok (found, missing)) = (
  advance epoch s,
  ok (record {
    recovered_epoch = epoch;
    committed_operations = found;
    uncommitted_operations = missing;
  }),
)

module _ (to_string : ℕ → String) where
  unfoldable pub cache_committed : ℕ → CommittedMapping → Shared → Shared
  unfolding set_extent_mapping
  cache_committed volume_id m s = record s {
    cache = set_extent_mapping to_string volume_id m.block_range.start (cached m) s.cache;
  }

  unfoldable pub on_lookup :
      ℕ → Result (Option CommittedMapping) → Shared → Shared × Result AmbiguousWriteOutcome
  unfolding cache_committed advance
  on_lookup volume_id (err e) s = (s, err e)
  on_lookup volume_id (ok none) s = (s, ok not_committed)
  on_lookup volume_id (ok (some m)) s =
      (advance m.epoch (cache_committed volume_id m s), ok (committed m.epoch m.extent_version))

  unfoldable pub resolve : Lookup → ℕ → ℕ → Shared → Shared × Result AmbiguousWriteOutcome
  unfolding on_lookup
  resolve lookup_operation volume_id operation_id s =
      on_lookup volume_id (lookup_operation operation_id) s

  unfoldable pub resolve_batch :
      Lookup → ℕ → List ℕ → Shared → Shared × Result (List (ℕ × AmbiguousWriteOutcome))
  unfolding resolve batch_step
  resolve_batch lookup_operation volume_id [] s = (s, ok [])
  resolve_batch lookup_operation volume_id (op ∷ ops) s =
      batch_step (resolve_batch lookup_operation volume_id ops) op
        (resolve lookup_operation volume_id op s)

  -- The loop of `recover` goes on with the counts of the operations seen.
  unfoldable pub recover_found :
      (ℕ → ℕ → Shared → Shared × Result (ℕ × ℕ))
      → ℕ
      → Result (Option CommittedMapping)
      → ℕ
      → ℕ
      → Shared
      → Shared × Result (ℕ × ℕ)
  unfolding cache_committed
  recover_found next volume_id (err e) found missing s = (s, err e)
  recover_found next volume_id (ok none) found missing s = next found (suc missing) s
  recover_found next volume_id (ok (some m)) found missing s =
      next (suc found) missing (cache_committed volume_id m s)

  unfoldable pub recover_each : Lookup → ℕ → List ℕ → ℕ → ℕ → Shared → Shared × Result (ℕ × ℕ)
  unfolding recover_found
  recover_each lookup_operation volume_id [] found missing s = (s, ok (found, missing))
  recover_each lookup_operation volume_id (op ∷ ops) found missing s =
      recover_found (recover_each lookup_operation volume_id ops) volume_id (lookup_operation op)
        found missing s

  unfoldable pub recover : Result ℕ → Lookup → ℕ → List ℕ → Shared → Shared × Result RecoveryResult
  unfolding recover_each recovered set_epoch
  recover (err e) lookup_operation volume_id ops s = (s, err e)
  recover (ok epoch) lookup_operation volume_id ops s = recovered epoch (
      recover_each lookup_operation volume_id ops 0 0
        (record s { cache = set_epoch epoch s.cache }))

unfoldable pub on_refreshed : WriteWatermark → MetadataCache × Result ℕ → Shared × Result ℕ
unfolding advance
on_refreshed w (c, err e) = (record { cache = c; watermark = w }, err e)
on_refreshed w (c, ok epoch) = (advance epoch (record { cache = c; watermark = w }), ok epoch)

unfoldable pub refresh_full_state :
    (MetadataCache → MetadataCache × Result ℕ) → Shared → Shared × Result ℕ
unfolding on_refreshed
refresh_full_state refresh_metadata s = on_refreshed s.watermark (refresh_metadata s.cache)
