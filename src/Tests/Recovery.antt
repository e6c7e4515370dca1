-- ===== src/Tests/Recovery.antt =====
-- The theorems about the client's recovery at a small cache.
use blockyard.Common.{ℕ-eq, ℕ, ◌≡◌, refl, some, none, [], ◌∷◌, if◌then◌else◌, ◌==◌, arith}
use blockyard.Common.Maps.{get}
use blockyard.Client.Results.{Result, ok}
use blockyard.Client.Cache.{MetadataCache, get_volume, find_extent_for_range}
use blockyard.Client.Recovery.{
  CommittedMapping, Lookup, Shared, RecoveryResult, cached, resolve, recover,
}
use blockyard.Client.RecoveryLaws.{Only, recover-Only}
use blockyard.Client.Resolved.{resolve-covers}
use blockyard.Tests.Demo.{strokes}
use blockyard.Tests.Client.{cache, volume}

abbrev mapping : CommittedMapping
mapping = record {
  extent_id = 11;
  extent_version = 5;
  epoch = 4;
  block_range = record { start = 2; stop = 6 };
  replica_locations = 4 ∷ [];
  checksums = [];
}

-- Operation 7 is committed, the others are not.
abbrev service : Lookup
service op = if op == 7 then ok (some mapping) else ok none

abbrev before : Shared
before = record { cache = cache; watermark = 3 }

abbrev after : Shared
after = record {
  cache = record {
    epoch = 4;
    cluster_map = [];
    volumes = (strokes 1, record volume { extent_mappings = (2, cached mapping) ∷ [] }) ∷ [];
  };
  watermark = 4;
}

abbrev summary : RecoveryResult
summary = record { recovered_epoch = 4; committed_operations = 1; uncommitted_operations = 1 }

recover-Only_example :
    Only strokes service 1
      (7 ∷ 8 ∷ [])
      1
      2
      cache
      (recover strokes (ok 4) service 1 (7 ∷ 8 ∷ []) before).0.cache
recover-Only_example = recover-Only strokes service 1 (ok 4) (7 ∷ 8 ∷ []) 1 2 before

-- A refresh that brings the cache to epoch 6.
abbrev refreshed : MetadataCache → MetadataCache × Result ℕ
refreshed c = (record c { epoch = 6 }, ok 6)

resolve-covers_example :
    find_extent_for_range strokes 1
      (record { start = 9; stop = 10 })
      (resolve strokes service 1 7 before).0.cache
    ≡ some (2, cached mapping)
unfolding get_volume get
resolve-covers_example =
    resolve-covers strokes service 1 7 mapping volume 9 10 before refl refl refl (ground arith)
