-- ===== src/Client/LeaseSafety.antt =====
-- What the lease manager promises, alone and together with the metadata service.
use blockyard.Common.{
  ℕ, String, ◌≡◌, ◌<◌, ◌↔◌, ◌⊎◌, inl, inr, refl, none, some, List, [], ◌∷◌, true, arith, ap,
}
use blockyard.Lease.{LeaseResponse, granted, renewed, released, denied, acquire}
use blockyard.Metadata.State.{MetadataState}
use blockyard.Metadata.Leases.{apply_lease_request, validate_lease}
use blockyard.Metadata.LeaseLaws.Fencing.{acquire-fences}
use blockyard.Client.Results.{ClientError, Result, ok, err, is_ok, lease_lost}
use blockyard.Client.LeaseManager.{
  LeaseManager, LeaseStatus, idle, active, lost, request, on_acquire, on_renew, mark_lost,
  check_write_allowed, Wake, interval, shutdown, renewal_failed, renewal_task, is_active,
  after_renew,
}

module _ (to_string : ℕ → String) where
  -- The acquisition through the metadata service: the service applies the request of the manager at
  -- its current time, and the manager handles the response.
  unfoldable pub acquire_through :
      LeaseManager → ℕ → MetadataState → MetadataState × (LeaseManager × Result ℕ)
  acquire_through m now_ms s =
      let (s', response) = apply_lease_request to_string (acquire (request m now_ms)) s in
      (s', on_acquire (ok response) m)

  acquired-granted :
      (response : LeaseResponse) (m m' : LeaseManager) (v : ℕ)
      → on_acquire (ok response) m ≡ (m', ok v)
      → (e : ℕ) × (response ≡ granted v e)
        × (m'.expires_at_ms ≡ some e)
        × (check_write_allowed m' ≡ ok v)
  unfolding on_acquire check_write_allowed
  acquired-granted (granted w e) m m' v h = (e, ground arith, ground arith, ground arith)
  acquired-granted (denied r) m m' v h = cc
  acquired-granted (renewed w e) m m' v h = cc
  acquired-granted released m m' v h = cc

  -- A manager that acquires the lease through the metadata service allows writes under the version
  -- that it got, and the service accepts that version from its session at a time exactly if the
  -- time is before the expiry that the manager has noted.
  pub acquire_through-validated :
      (m m' : LeaseManager) (now_ms : ℕ) (s s' : MetadataState) (v later_ms : ℕ)
      → acquire_through m now_ms s ≡ (s', (m', ok v))
      → (e : ℕ) × (m'.expires_at_ms ≡ some e)
        × (check_write_allowed m' ≡ ok v)
        × ((validate_lease to_string s' m.volume_id m.session_id v later_ms ≡ none)
            ↔ (later_ms < e))
  unfolding acquire_through request
  acquire_through-validated m m' now_ms s s' v later_ms h =
      let answer = apply_lease_request to_string (acquire (request m now_ms)) s in
      let (e, granted_is, noted, allowed) = acquired-granted answer.1 m m' v (ap (λ r. r.1) h) in
      (
        e,
        noted,
        allowed,
        (
          λ valid.
              ((acquire-fences to_string (request m now_ms) s s' v e m.session_id v later_ms
                  (ground arith)).0
                valid).2,
          λ early.
              (acquire-fences to_string (request m now_ms) s s' v e m.session_id v later_ms
                  (ground arith)).1
                (refl, refl, early),
        ),
      )

-- A wake of the list is answered by the failure of the call with this error.
pub data Asked (e : ClientError) : List Wake → Type 0 where
  here : {ws : List Wake} → Asked e (interval (err e) ∷ ws)
  later : {ws : List Wake} {w : Wake} → Asked e ws → Asked e (w ∷ ws)

abbrev Stops : LeaseManager → ClientError → List Wake → Type 0
Stops m e ws =
    (check_write_allowed m ≡ err lease_lost) ⊎ ((is_ok (check_write_allowed m) ≡ true) × Asked e ws)

here-Asked : (f e : ClientError) (ws : List Wake) → f ≡ e → Asked e (interval (err f) ∷ ws)
here-Asked f e ws same = rw same here

later-Stops :
    (m : LeaseManager) (e : ClientError) (ws : List Wake) (w : Wake)
    → Stops m e ws
    → Stops m e (w ∷ ws)
later-Stops m e ws w (inl refused) = inl refused
later-Stops m e ws w (inr (allowed, asked)) = inr (allowed, later asked)

answered-failed :
    (answer : Result LeaseResponse) (ws : List Wake) (m m' : LeaseManager) (v : ℕ) (e : ClientError)
    → m.lease_version ≡ some v
    → (status : LeaseStatus) → m.status ≡ status
    → renewal_task (interval answer ∷ ws) m ≡ (m', renewal_failed e)
    → ((n : LeaseManager) (w : ℕ)
        → n.lease_version ≡ some w
        → renewal_task ws n ≡ (m', renewal_failed e)
        → Stops m' e ws)
    → Stops m' e (interval answer ∷ ws)
unfolding renewal_task check_write_allowed is_active on_renew after_renew mark_lost
answered-failed answer ws m m' v e has idle at h next = cc
answered-failed answer ws m m' v e has lost at h next = cc
answered-failed (err f) ws m m' v e has active at h next =
    inr (ground arith, here-Asked f e ws (ground arith))
answered-failed (ok (renewed w x)) ws m m' v e has active at h next =
    later-Stops m' e ws _
      (next (record m { lease_version = some w; expires_at_ms = some x }) w refl (ground arith))
answered-failed (ok (denied r)) ws m m' v e has active at h next = inl (ground arith)
answered-failed (ok (granted w x)) ws m m' v e has active at h next = inl (ground arith)
answered-failed (ok released) ws m m' v e has active at h next = inl (ground arith)

-- A renewal task of a manager with a lease version that stops because a renewal failed with an
-- error leaves writes refused as lost, or still allowed; the latter only if a call of the metadata
-- service itself failed with that error.
pub renewal_task-failed :
    (ws : List Wake) (m m' : LeaseManager) (v : ℕ) (e : ClientError)
    → m.lease_version ≡ some v
    → renewal_task ws m ≡ (m', renewal_failed e)
    → (check_write_allowed m' ≡ err lease_lost)
      ⊎ ((is_ok (check_write_allowed m') ≡ true) × Asked e ws)
unfolding renewal_task check_write_allowed is_active on_renew after_renew mark_lost
renewal_task-failed [] m m' v e has h = cc
renewal_task-failed (shutdown ∷ ws) m m' v e has h = cc
renewal_task-failed (interval answer ∷ ws) m m' v e has h =
    answered-failed answer ws m m' v e has m.status refl h
      (λ n w has' h'. renewal_task-failed ws n m' w e has' h')
