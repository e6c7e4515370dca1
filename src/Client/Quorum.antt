-- ===== src/Client/Quorum.antt =====
-- crates/blockyard-ublk/src/quorum_health.rs: what the client does without a metadata quorum.
use blockyard.Common.{ℕ, wrapping_add, Bool, true, false, List, [], ◌∷◌, if◌then◌else◌, leb}
use blockyard.Client.Results.{Result, ok, err}
use blockyard.Client.Watermark.{WriteWatermark}
use blockyard.Client.Cache.{MetadataCache}

pub data QuorumLossReadPolicy : Type 0 where
  allow_cached_reads block_all_reads : QuorumLossReadPolicy

pub data QuorumStatus : Type 0 where
  healthy degraded unavailable : QuorumStatus

pub record QuorumHealthMonitor : Type 0 where
  pub writes_blocked : Bool
  pub status : QuorumStatus
  pub read_policy : QuorumLossReadPolicy
  pub consecutive_failures : ℕ
  pub failure_threshold : ℕ
  pub recovery_count : ℕ

abbrev pub new : QuorumLossReadPolicy → QuorumHealthMonitor
new read_policy = record {
  writes_blocked = false;
  status = healthy;
  read_policy = read_policy;
  consecutive_failures = 0;
  failure_threshold = 3;
  recovery_count = 0;
}

unfoldable pub with_failure_threshold : ℕ → QuorumHealthMonitor → QuorumHealthMonitor
with_failure_threshold threshold m = record m { failure_threshold = threshold }

abbrev allows_cached : QuorumLossReadPolicy → Bool
allows_cached allow_cached_reads = true
allows_cached block_all_reads = false

unfoldable pub reads_allowed : QuorumStatus → QuorumLossReadPolicy → Bool
reads_allowed healthy policy = true
reads_allowed degraded policy = true
reads_allowed unavailable policy = allows_cached policy

-- The restoration that `record_success` makes of a status, once writes are unblocked.
unfoldable pub restored : QuorumStatus → Bool → QuorumHealthMonitor → QuorumHealthMonitor
restored healthy was_blocked m = m
restored degraded was_blocked m = record m {
  status = healthy;
  recovery_count = if was_blocked then wrapping_add m.recovery_count 1 else m.recovery_count;
}
restored unavailable was_blocked m = record m {
  status = healthy;
  recovery_count = if was_blocked then wrapping_add m.recovery_count 1 else m.recovery_count;
}

unfoldable pub record_success : QuorumHealthMonitor → QuorumHealthMonitor
unfolding restored
record_success m =
    restored m.status m.writes_blocked
      (record m { consecutive_failures = 0; writes_blocked = false })

unfoldable pub degrade : QuorumStatus → QuorumStatus
degrade healthy = degraded
degrade degraded = degraded
degrade unavailable = unavailable

unfoldable pub record_failure : QuorumHealthMonitor → QuorumHealthMonitor
unfolding degrade
record_failure m =
    let failures : ℕ = wrapping_add m.consecutive_failures 1 in
    if leb m.failure_threshold failures
    then record m { consecutive_failures = failures; writes_blocked = true; status = unavailable }
    else record m { consecutive_failures = failures; status = degrade m.status }

unfoldable pub cache_suffices : QuorumStatus → WriteWatermark → MetadataCache → Bool
cache_suffices unavailable w c = leb w c.epoch
cache_suffices healthy w c = true
cache_suffices degraded w c = true

unfoldable pub check_read_allowed : QuorumHealthMonitor → WriteWatermark → MetadataCache → Bool
unfolding reads_allowed cache_suffices
check_read_allowed m w c =
    if reads_allowed m.status m.read_policy then cache_suffices m.status w c else false

unfoldable pub health_check : Result ℕ → QuorumHealthMonitor → QuorumHealthMonitor × Bool
unfolding record_success record_failure
health_check (ok epoch) m = (record_success m, true)
health_check (err e) m = (record_failure m, false)

-- Health checks one after the other, by what the service answered.
unfoldable pub health_checks : List (Result ℕ) → QuorumHealthMonitor → QuorumHealthMonitor
unfolding health_check
health_checks [] m = m
health_checks (answer ∷ answers) m = health_checks answers (health_check answer m).0
