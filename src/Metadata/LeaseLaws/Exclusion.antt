-- ===== src/Metadata/LeaseLaws/Exclusion.antt =====
-- While a lease lasts, no other session gets or changes it.
use text.Mathlib.TextEquality.{eq_iff}
use blockyard.Common.{
  ℕ-eq, String-eq, ℕ, String, ◌≡◌, ◌≢◌, ◌<◌, refl, Option, none, some, List, [], ◌∷◌, arith, false,
  wrapping_add, All,
}
use blockyard.Common.Maps.{get, get-insert, get-remove}
use blockyard.Lease.{VolumeLease, LeaseTerms, LeaseRequest, acquire, renew, release, is_success}
use blockyard.Metadata.State.{MetadataState}
use blockyard.Metadata.Leases.{apply_lease_request, renew_found, next_version}
use blockyard.Metadata.LeaseLaws.Fencing.{granted_lease}

-- A request that does not come from the holder, made before the expiry. A release carries no time.
abbrev pub Foreign : ℕ → ℕ → LeaseRequest → Type 0
Foreign holder expiry (acquire t) = (t.session_id ≢ holder) × (t.now_ms < expiry)
Foreign holder expiry (renew t) = (t.session_id ≢ holder) × (t.now_ms < expiry)
Foreign holder expiry (release volume_id session_id) = session_id ≢ holder

module _ (to_string : ℕ → String) where
  -- The lease requests of a log, in order.
  unfoldable pub run_leases : List LeaseRequest → MetadataState → MetadataState
  run_leases [] s = s
  run_leases (r ∷ rs) s = run_leases rs (apply_lease_request to_string r s).0

  renew-kept :
      (vk : String) (t : LeaseTerms) (o : Option VolumeLease) (s : MetadataState) (key : String)
      (l : VolumeLease)
      → get vk s.leases ≡ o
      → get key s.leases ≡ some l
      → Foreign l.holder l.expires_at_ms (renew t)
      → get key (renew_found vk t o s).0.leases ≡ some l
  unfolding renew_found
  renew-kept vk t none s key l e here other = here
  renew-kept vk t (some w) s key l e here other =
      let next : VolumeLease = record w {
        expires_at_ms = wrapping_add t.now_ms t.ttl_ms;
        lease_version = next_version s;
      } in
      ground (arith, eq_iff vk key, get-insert vk key next s.leases)

  pub rival_step :
      (r : LeaseRequest) (s : MetadataState) (key : String) (l : VolumeLease)
      → get key s.leases ≡ some l
      → Foreign l.holder l.expires_at_ms r
      → get key (apply_lease_request to_string r s).0.leases ≡ some l
  unfolding apply_lease_request
  rival_step (acquire t) s key l here other = ground (
    arith,
    eq_iff (to_string t.volume_id) key,
    get-insert (to_string t.volume_id) key
        (granted_lease t (next_version s) (wrapping_add t.now_ms t.ttl_ms)) s.leases,
  )
  rival_step (renew t) s key l here other =
      renew-kept (to_string t.volume_id) t (get (to_string t.volume_id) s.leases) s key l refl here
        other
  rival_step (release volume_id session_id) s key l here other =
      ground
        (arith, eq_iff (to_string volume_id) key, get-remove (to_string volume_id) key s.leases)

  leases-kept :
      (rs : List LeaseRequest) (s : MetadataState) (key : String) (l : VolumeLease)
      → get key s.leases ≡ some l
      → All (Foreign l.holder l.expires_at_ms) rs
      → get key (run_leases rs s).leases ≡ some l
  unfolding run_leases
  leases-kept [] s key l here others = here
  leases-kept (r ∷ rs) s key l here others =
      leases-kept rs _ key l (rival_step r s key l here others.0) others.1

  -- After any lease requests of other sessions by times before the expiry of a volume's lease, another
  -- session that asks for the volume by such a time is denied, with the state unchanged.
  pub rival_acquire-denied :
      (rs : List LeaseRequest) (s : MetadataState) (t : LeaseTerms) (l : VolumeLease)
      → get (to_string t.volume_id) s.leases ≡ some l
      → All (Foreign l.holder l.expires_at_ms) rs
      → t.session_id ≢ l.holder
      → t.now_ms < l.expires_at_ms
      → ((apply_lease_request to_string (acquire t) (run_leases rs s)).0 ≡ run_leases rs s)
        × (is_success (apply_lease_request to_string (acquire t) (run_leases rs s)).1 ≡ false)
  unfolding apply_lease_request is_success
  rival_acquire-denied rs s t l here others other alive =
      ground (arith, leases-kept rs s (to_string t.volume_id) l here others)
