-- ===== src/Lease.antt =====
-- crates/blockyard-common/src/lease.rs: volume write leases, their requests and responses. An id
-- is the number of its UUID. A refusal keeps the kind of its reason in place of the formatted text.
use blockyard.Common.{ℕ, ◌-◌, Bool, true, false, leb, nat_eq}

pub record VolumeLease : Type 0 where
  pub volume_id : ℕ
  pub holder : ℕ
  pub granted_at_ms : ℕ
  pub expires_at_ms : ℕ
  pub lease_version : ℕ

unfoldable pub is_expired : VolumeLease → ℕ → Bool
is_expired l now_ms = leb l.expires_at_ms now_ms

unfoldable pub is_held_by : VolumeLease → ℕ → Bool
is_held_by l session_id = nat_eq l.holder session_id

unfoldable pub remaining_ms : VolumeLease → ℕ → ℕ
remaining_ms l now_ms = l.expires_at_ms - now_ms

pub record LeaseTerms : Type 0 where
  pub volume_id : ℕ
  pub session_id : ℕ
  pub now_ms : ℕ
  pub ttl_ms : ℕ

pub data LeaseRequest : Type 0 where
  acquire renew : LeaseTerms → LeaseRequest
  release : ℕ → ℕ → LeaseRequest

pub data DenialReason : Type 0 where
  no_such_volume held_by_other no_lease expired : DenialReason

pub data LeaseResponse : Type 0 where
  granted renewed : ℕ → ℕ → LeaseResponse
  released : LeaseResponse
  denied : DenialReason → LeaseResponse

unfoldable pub is_success : LeaseResponse → Bool
is_success (denied r) = false
is_success (granted v e) = true
is_success (renewed v e) = true
is_success released = true
