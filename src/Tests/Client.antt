-- ===== src/Tests/Client.antt =====
-- The theorems about the client's leases, watermark, cache and quorum at small states.
use blockyard.Common.{ℕ-eq, String-eq, ℕ, ◌≡◌, ◌<◌, ◌↔◌, ◌⊎◌, refl, some, none, [], ◌∷◌, List, true}
use blockyard.Lease.{renewed}
use blockyard.Metadata.State.{MetadataState, BlockRange}
use blockyard.Metadata.Leases.{validate_lease}
use blockyard.Protection.{replicated}
use blockyard.Client.Results.{Result, ok, err, is_ok, unreachable, lease_lost}
use blockyard.Client.LeaseManager.{
  LeaseManager, new, on_acquire, request, active, check_write_allowed, Wake, interval, renewal_task,
}
use blockyard.Client.LeaseSafety.{
  acquire_through, acquire_through-validated, renewal_task-failed, Asked,
}
use blockyard.Client.Watermark.{
  Caller, load, loading, returned, Run, stop, more, here, there, loads, exchanges, fails,
}
use blockyard.Common.Highest.{highest}
use blockyard.Client.Races.{Run-highest}
use blockyard.Client.Cache.{MetadataCache, CachedVolumeInfo, CachedExtentMapping}
use blockyard.Tests.Demo.{strokes, demo, program}

abbrev mounted : LeaseManager
mounted = record (new 1 31 50) { status = active; lease_version = some 2; expires_at_ms = some 210 }

abbrev taken : MetadataState
taken = record demo {
  leases =
      (
        strokes 1,
        record {
          volume_id = 1;
          holder = 31;
          granted_at_ms = 160;
          expires_at_ms = 210;
          lease_version = 2;
        },
      )
      ∷ [];
  lease_version_counter = 2;
}

acquire_through-validated_example :
    (e : ℕ) × (mounted.expires_at_ms ≡ some e)
    × (check_write_allowed mounted ≡ ok 2)
    × ((validate_lease strokes taken 1 31 2 170 ≡ none) ↔ (170 < e))
unfolding program acquire_through on_acquire request
acquire_through-validated_example =
    acquire_through-validated strokes (new 1 31 50) mounted 160 demo taken 2 170 refl

abbrev wakes : List Wake
wakes = interval (ok (renewed 3 260)) ∷ interval (err (unreachable 0)) ∷ []

abbrev kept : LeaseManager
kept = record mounted { lease_version = some 3; expires_at_ms = some 260 }

renewal_task-failed_example :
    (check_write_allowed kept ≡ err lease_lost)
    ⊎ ((is_ok (check_write_allowed kept) ≡ true) × Asked (unreachable 0) wakes)
unfolding renewal_task
renewal_task-failed_example = renewal_task-failed wakes mounted kept 2 (unreachable 0) refl refl

-- Two threads that both load the first value: the second exchange fails, and is tried again.
abbrev calls : List ℕ
calls = 5 ∷ 7 ∷ []

abbrev finished : List Caller
finished = returned 5 true ∷ returned 7 true ∷ []

race : Run 3 (loading 5 ∷ loading 7 ∷ []) 7 finished
unfolding load
race =
    more
      (more
        (more
          (more (more (more stop (here (loads refl))) (there (here (loads refl))))
            (here (exchanges refl)))
          (there (here fails)))
        (there (here (loads refl))))
      (there (here (exchanges refl)))

Run-highest_example : ◌≡◌ {A = ℕ} 7 (highest 3 calls)
Run-highest_example = Run-highest 3 7 calls finished race (tt, (tt, tt))

abbrev pub volume : CachedVolumeInfo
volume = record {
  volume_id = 1;
  size_bytes = 65536;
  block_size = 4096;
  protection = replicated 3;
  extent_mappings = [];
}

abbrev pub cache : MetadataCache
cache = record { epoch = 2; cluster_map = []; volumes = (strokes 1, volume) ∷ [] }

abbrev extent : CachedExtentMapping
extent = record {
  extent_id = 11;
  extent_version = 5;
  replica_locations = 4 ∷ [];
  checksums = [];
  size_bytes = 0;
  extent_offset = 0;
}

abbrev blocks : BlockRange
blocks = record { start = 2; stop = 6 }

abbrev answers : List (Result ℕ)
answers = err (unreachable 0) ∷ err (unreachable 0) ∷ ok 2 ∷ err (unreachable 0) ∷ []
