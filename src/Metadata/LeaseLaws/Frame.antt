-- ===== src/Metadata/LeaseLaws/Frame.antt =====
-- A lease request touches the leases and their version counter alone.
use blockyard.Common.{ℕ-eq, String-eq, ℕ, String, ◌≡◌, arith}
use blockyard.Lease.{LeaseRequest, acquire, renew, release}
use blockyard.Metadata.State.{MetadataState}
use blockyard.Metadata.Leases.{apply_lease_request}

module _ (to_string : ℕ → String) where
  pub lease-frame :
      (r : LeaseRequest) (s : MetadataState)
      → (apply_lease_request to_string r s).0 ≡ record s {
        leases = (apply_lease_request to_string r s).0.leases;
        lease_version_counter = (apply_lease_request to_string r s).0.lease_version_counter;
      }
  unfolding apply_lease_request
  lease-frame (acquire t) s = ground arith
  lease-frame (renew t) s = ground arith
  lease-frame (release v sess) s = ground arith
