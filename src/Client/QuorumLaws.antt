-- ===== src/Client/QuorumLaws.antt =====
-- When the client blocks writes and reads (crates/blockyard-ublk/src/quorum_health.rs).
use blockyard.Common.{
  ℕ, ◌≡◌, ◌≢◌, ◌<◌, ◌≤◌, ◌+◌, ◌↔◌, ◌⊎◌, inl, refl, suc, zero, u64_mod, Bool, true, false, List, [],
  ◌∷◌, length, if◌then◌else◌, leb, arith,
}
use blockyard.Client.Results.{Result, ok, err}
use blockyard.Client.Watermark.{WriteWatermark}
use blockyard.Client.Cache.{MetadataCache}
use blockyard.Client.Quorum.{
  QuorumLossReadPolicy, allow_cached_reads, block_all_reads, QuorumStatus, healthy, degraded,
  unavailable, QuorumHealthMonitor, new, with_failure_threshold, reads_allowed, restored,
  record_success, degrade, record_failure, cache_suffices, check_read_allowed, health_checks,
}

-- The failures at the end of a list of answers, after `n` failures before it.
unfoldable pub failures_at_end : ℕ → List (Result ℕ) → ℕ
failures_at_end n [] = n
failures_at_end n (ok epoch ∷ answers) = failures_at_end 0 answers
failures_at_end n (err e ∷ answers) = failures_at_end (suc n) answers

-- The status after a number of failures in a row.
unfoldable pub status_after : ℕ → ℕ → QuorumStatus
status_after threshold zero = healthy
status_after threshold (suc n) = if leb threshold (suc n) then unavailable else degraded

-- The state of a monitor after a number of failures in a row.
abbrev Describes : QuorumLossReadPolicy → ℕ → ℕ → QuorumHealthMonitor → Type 0
Describes policy threshold n m =
    (m.read_policy ≡ policy)
    × (m.failure_threshold ≡ threshold)
    × (m.consecutive_failures ≡ n)
    × (m.status ≡ status_after threshold n)
    × (m.writes_blocked ≡ leb threshold n)

restored-Describes :
    (policy : QuorumLossReadPolicy) (threshold : ℕ) (status : QuorumStatus) (b : Bool)
    (m : QuorumHealthMonitor)
    → m.status ≡ status
    → 0 < threshold
    → (m.read_policy ≡ policy) × (m.failure_threshold ≡ threshold)
    → Describes policy threshold 0
        (restored status b (record m { consecutive_failures = 0; writes_blocked = false }))
unfolding restored status_after
restored-Describes policy threshold healthy b m e positive (p, t) = ground arith
restored-Describes policy threshold degraded b m e positive (p, t) = ground arith
restored-Describes policy threshold unavailable b m e positive (p, t) = ground arith

record_success-Describes :
    (policy : QuorumLossReadPolicy) (threshold n : ℕ) (m : QuorumHealthMonitor)
    → 0 < threshold
    → Describes policy threshold n m
    → Describes policy threshold 0 (record_success m)
unfolding record_success status_after restored
record_success-Describes policy threshold n m positive d =
    restored-Describes policy threshold m.status m.writes_blocked m refl positive (d.0, d.1)

record_failure-Describes :
    (policy : QuorumLossReadPolicy) (threshold n : ℕ) (m : QuorumHealthMonitor)
    → suc n < u64_mod
    → Describes policy threshold n m
    → Describes policy threshold (suc n) (record_failure m)
unfolding record_failure status_after degrade
record_failure-Describes policy threshold n m small d = ground arith

health_checks-Describes :
    (policy : QuorumLossReadPolicy) (threshold n : ℕ) (answers : List (Result ℕ))
    (m : QuorumHealthMonitor)
    → 0 < threshold
    → n + length answers < u64_mod
    → Describes policy threshold n m
    → Describes policy threshold (failures_at_end n answers) (health_checks answers m)
unfolding health_checks failures_at_end
health_checks-Describes policy threshold n [] m positive small d = d
health_checks-Describes policy threshold n (ok epoch ∷ answers) m positive small d =
    health_checks-Describes policy threshold 0 answers (record_success m) positive (omega arith)
      (record_success-Describes policy threshold n m positive d)
health_checks-Describes policy threshold n (err e ∷ answers) m positive small d =
    health_checks-Describes policy threshold (suc n) answers (record_failure m) positive
      (omega arith) (record_failure-Describes policy threshold n m (omega arith) d)

read-allowed :
    (policy : QuorumLossReadPolicy) (status : QuorumStatus) (w : WriteWatermark) (c : MetadataCache)
    → ((if reads_allowed status policy then cache_suffices status w c else false) ≡ true)
      ↔ ((status ≢ unavailable) ⊎ ((policy ≡ allow_cached_reads) × (w ≤ c.epoch)))
unfolding reads_allowed cache_suffices
read-allowed policy healthy w c = (λ h. inl (λ e. cc), λ h. refl)
read-allowed policy degraded w c = (λ h. inl (λ e. cc), λ h. refl)
read-allowed allow_cached_reads unavailable w c = ground arith
read-allowed block_all_reads unavailable w c = ground arith

status_after-unavailable :
    (threshold n : ℕ) → 0 < threshold → (status_after threshold n ≡ unavailable) ↔ (threshold ≤ n)
unfolding status_after
status_after-unavailable threshold zero positive = ground arith
status_after-unavailable threshold (suc n) positive = ground arith

described-allows :
    (policy : QuorumLossReadPolicy) (threshold n : ℕ) (m : QuorumHealthMonitor) (w : WriteWatermark)
    (c : MetadataCache)
    → 0 < threshold
    → Describes policy threshold n m
    → ((m.writes_blocked ≡ true) ↔ (threshold ≤ n))
      × ((check_read_allowed m w c ≡ true)
          ↔ ((n < threshold) ⊎ ((policy ≡ allow_cached_reads) × (w ≤ c.epoch))))
unfolding check_read_allowed
described-allows policy threshold n m w c positive d = (
  ground arith,
  ground (
    arith,
    status_after-unavailable threshold n positive,
    read-allowed policy (status_after threshold n) w c,
  ),
)

-- After health checks of a monitor with a positive threshold, fewer than 2 ^ 64 of them, writes are
-- blocked exactly if as many of the last checks as the threshold have all failed; and a read is
-- allowed exactly if they are not blocked, or the policy allows cached reads and the cached epoch
-- has reached the watermark.
pub health_checks-blocked :
    (policy : QuorumLossReadPolicy) (threshold : ℕ) (answers : List (Result ℕ)) (w : WriteWatermark)
    (c : MetadataCache)
    → 0 < threshold
    → length answers < u64_mod
    → let m = health_checks answers (with_failure_threshold threshold (new policy)) in
      ((m.writes_blocked ≡ true) ↔ (threshold ≤ failures_at_end 0 answers))
      × ((check_read_allowed m w c ≡ true) ↔ (
          (failures_at_end 0 answers < threshold)
          ⊎ ((policy ≡ allow_cached_reads) × (w ≤ c.epoch))))
unfolding with_failure_threshold status_after
health_checks-blocked policy threshold answers w c positive small =
    let start = with_failure_threshold threshold (new policy) in
    let described =
      health_checks-Describes policy threshold 0 answers start positive (omega arith)
        (refl, refl, refl, refl, ground arith) in
    described-allows policy threshold (failures_at_end 0 answers) _ w c positive described
