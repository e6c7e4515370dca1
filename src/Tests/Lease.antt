-- ===== src/Tests/Lease.antt =====
-- The theorems about leases at the demo state.
use blockyard.Common.{
  ℕ-eq, String-eq, ℕ, suc, ◌≡◌, ◌<◌, ◌↔◌, refl, none, [], ◌∷◌, List, arith, false,
}
use blockyard.Lease.{LeaseTerms, LeaseRequest, acquire, renew, release, is_success}
use blockyard.Metadata.State.{MetadataState, MetadataRequest}
use blockyard.Metadata.Leases.{apply_lease_request, validate_lease, cleanup_expired}
use blockyard.Tests.Demo.{strokes, demo_lease, demo, program}
use blockyard.Metadata.LeaseLaws.Fencing.{acquire-fences}
use blockyard.Metadata.LeaseLaws.Exclusion.{run_leases, rival_acquire-denied}
use blockyard.Metadata.LeaseLaws.Holding.{holder-entitled}

abbrev takeover : LeaseTerms
takeover = record { volume_id = 1; session_id = 31; now_ms = 160; ttl_ms = 50 }

abbrev taken : MetadataState
taken = record demo {
  leases =
      (
        strokes 1,
        record {
          volume_id = 1;
          holder = 31;
          granted_at_ms = 160;
          expires_at_ms = 210;
          lease_version = 2;
        },
      )
      ∷ [];
  lease_version_counter = 2;
}

acquire-fences_example :
    (validate_lease strokes taken 1 30 1 170 ≡ none)
    ↔ ((takeover.session_id ≡ 30) × (◌≡◌ {A = ℕ} 2 1) × (170 < 210))
unfolding program
acquire-fences_example = acquire-fences strokes takeover demo taken 2 210 30 1 170 refl

abbrev extension : LeaseTerms
extension = record { volume_id = 1; session_id = 30; now_ms = 120; ttl_ms = 50 }

abbrev extended : MetadataState
extended = record demo {
  leases = (strokes 1, record demo_lease { expires_at_ms = 170; lease_version = 2 }) ∷ [];
  lease_version_counter = 2;
}

abbrev rivals : List LeaseRequest
rivals =
    acquire (record { volume_id = 1; session_id = 31; now_ms = 110; ttl_ms = 50 })
    ∷ renew (record { volume_id = 1; session_id = 32; now_ms = 111; ttl_ms = 50 })
    ∷ release 1 33
    ∷ []

-- Rivals, a clean-up and the deletion of another volume.
abbrev requests : List MetadataRequest
requests =
    MetadataRequest.lease
      (acquire (record { volume_id = 1; session_id = 31; now_ms = 110; ttl_ms = 50 }))
    ∷ MetadataRequest.cleanup_expired_leases 149
    ∷ MetadataRequest.delete_volume 2
    ∷ MetadataRequest.advance_epoch
    ∷ []

holder-entitled_example :
    validate_lease strokes (record demo { epoch = suc demo.epoch }) 1 30 1 149 ≡ none
unfolding program cleanup_expired
holder-entitled_example =
    holder-entitled strokes requests demo (record demo { epoch = suc demo.epoch }) 1 149 demo_lease
      refl ((omega arith, omega arith), (omega arith, (λ h. absurd (cc h), (tt, tt)))) (omega arith)
      refl

rival_acquire-denied_example :
    ((apply_lease_request strokes
        (acquire (record takeover { now_ms = 149 }))
        (run_leases strokes rivals demo)).0
      ≡ run_leases strokes rivals demo)
    × (is_success
          (apply_lease_request strokes
            (acquire (record takeover { now_ms = 149 }))
            (run_leases strokes rivals demo)).1
        ≡ false)
unfolding program
rival_acquire-denied_example =
    rival_acquire-denied strokes rivals demo (record takeover { now_ms = 149 }) demo_lease refl
      ((omega arith, omega arith), ((omega arith, omega arith), (omega arith, tt))) (omega arith)
      (omega arith)
