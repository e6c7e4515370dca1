-- ===== src/Client/LeaseManager.antt =====
-- crates/blockyard-ublk/src/lease_manager.rs. The response of the metadata service is an argument.
use blockyard.Common.{ℕ, Option, none, some, List, [], ◌∷◌, Bool, true, false}
use blockyard.Lease.{LeaseResponse, LeaseTerms, granted, renewed, released, denied}
use blockyard.Client.Results.{
  ClientError, Result, ok, err, lease_denied, unexpected_response, no_version, not_held, lease_lost,
}

pub data LeaseStatus : Type 0 where
  idle active lost : LeaseStatus

pub record LeaseManager : Type 0 where
  pub volume_id : ℕ
  pub session_id : ℕ
  pub ttl_ms : ℕ
  pub status : LeaseStatus
  pub lease_version : Option ℕ
  pub expires_at_ms : Option ℕ

abbrev pub new : ℕ → ℕ → ℕ → LeaseManager
new volume_id session_id ttl_ms = record {
  volume_id = volume_id;
  session_id = session_id;
  ttl_ms = ttl_ms;
  status = idle;
  lease_version = none;
  expires_at_ms = none;
}

-- The terms that `acquire` and `renew` send.
unfoldable pub request : LeaseManager → ℕ → LeaseTerms
request m now_ms = record {
  volume_id = m.volume_id;
  session_id = m.session_id;
  now_ms = now_ms;
  ttl_ms = m.ttl_ms;
}

unfoldable pub on_acquire : Result LeaseResponse → LeaseManager → LeaseManager × Result ℕ
on_acquire (err e) m = (m, err e)
on_acquire (ok (granted v e)) m =
    (record m { status = active; lease_version = some v; expires_at_ms = some e }, ok v)
on_acquire (ok (denied r)) m = (m, err lease_denied)
on_acquire (ok (renewed v e)) m = (m, err unexpected_response)
on_acquire (ok released) m = (m, err unexpected_response)

unfoldable pub mark_lost : LeaseManager → LeaseManager
mark_lost m = record m { status = lost }

unfoldable pub on_renew : Result LeaseResponse → LeaseManager → LeaseManager × Result ℕ
unfolding mark_lost
on_renew (err e) m = (m, err e)
on_renew (ok (renewed v e)) m = (record m { lease_version = some v; expires_at_ms = some e }, ok v)
on_renew (ok (denied r)) m = (mark_lost m, err lease_denied)
on_renew (ok (granted v e)) m = (mark_lost m, err unexpected_response)
on_renew (ok released) m = (mark_lost m, err unexpected_response)

unfoldable pub cleared : LeaseManager → LeaseManager
cleared m = record m { status = idle; lease_version = none; expires_at_ms = none }

unfoldable pub on_release : Result LeaseResponse → LeaseManager → LeaseManager × Result (Unit {0})
unfolding cleared
on_release (err e) m = (m, err e)
on_release (ok released) m = (cleared m, ok tt)
on_release (ok (denied r)) m = (cleared m, ok tt)
on_release (ok (granted v e)) m = (cleared m, err unexpected_response)
on_release (ok (renewed v e)) m = (cleared m, err unexpected_response)

unfoldable pub version_of_active : Option ℕ → Result ℕ
version_of_active none = err no_version
version_of_active (some v) = ok v

unfoldable pub allowed_in : LeaseStatus → Option ℕ → Result ℕ
unfolding version_of_active
allowed_in active version = version_of_active version
allowed_in idle version = err not_held
allowed_in lost version = err lease_lost

unfoldable pub check_write_allowed : LeaseManager → Result ℕ
unfolding allowed_in
check_write_allowed m = allowed_in m.status m.lease_version

-- What ends a wait of the renewal task: the interval, with the answer that the renewal then gets,
-- or the shutdown.
pub data Wake : Type 0 where
  interval : Result LeaseResponse → Wake
  shutdown : Wake

-- Why the task has stopped, if it has.
pub data TaskEnd : Type 0 where
  running by_shutdown not_active : TaskEnd
  renewal_failed : ClientError → TaskEnd

unfoldable pub is_active : LeaseStatus → Bool
is_active active = true
is_active idle = false
is_active lost = false

-- The loop goes on after a renewal that succeeded, and returns after one that failed.
unfoldable pub after_renew :
    (LeaseManager → LeaseManager × TaskEnd) → LeaseManager × Result ℕ → LeaseManager × TaskEnd
after_renew next (m, err e) = (m, renewal_failed e)
after_renew next (m, ok v) = next m

-- The loop of `spawn_renewal_task` over the wakes.
unfoldable pub renewal_task : List Wake → LeaseManager → LeaseManager × TaskEnd
unfolding is_active on_renew after_renew
renewal_task [] m = (m, running)
renewal_task (shutdown ∷ ws) m = (m, by_shutdown)
renewal_task (interval answer ∷ ws) m = elim (is_active m.status) [
  | false ↦ (m, not_active)
  | true ↦ after_renew (renewal_task ws) (on_renew answer m)
]
