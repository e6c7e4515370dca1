-- ===== src/Metadata/LeaseLaws/Fencing.antt =====
-- What a grant means for the fencing of writes.

use blockyard.Common.{
  ℕ-eq, String-eq, ℕ, String, ◌≡◌, ◌<◌, ◌↔◌, refl, Option, none, some, arith, wrapping_add,
}
use blockyard.Common.Maps.{get, get-insert_self}
use blockyard.Lease.{VolumeLease, LeaseTerms, acquire, renew, granted, renewed}
use blockyard.Metadata.State.{MetadataState}
use blockyard.Metadata.Leases.{
  apply_lease_request, validate_lease, check_lease, grant, renew_found, next_version,
}

-- A lease that the holder may write under.
abbrev pub Entitles : VolumeLease → ℕ → ℕ → ℕ → Type 0
Entitles l session_id version now_ms =
    (l.holder ≡ session_id) × (l.lease_version ≡ version) × (now_ms < l.expires_at_ms)

pub check_lease-some :
    (l : VolumeLease) (session_id version now_ms : ℕ)
    → (check_lease (some l) session_id version now_ms ≡ none) ↔ Entitles l session_id version now_ms
unfolding check_lease
check_lease-some l session_id version now_ms = (λ h. ground arith, λ e. ground arith)

abbrev pub granted_lease : LeaseTerms → ℕ → ℕ → VolumeLease
granted_lease t v e = record {
  volume_id = t.volume_id;
  holder = t.session_id;
  granted_at_ms = t.now_ms;
  expires_at_ms = e;
  lease_version = v;
}

module _ (to_string : ℕ → String) where
  -- `validate_lease` accepts exactly the session and version of the lease that the volume has, for
  -- as long as it lasts.
  pub validate_lease_iff :
      (s : MetadataState) (volume_id session_id version now_ms : ℕ)
      → (validate_lease to_string s volume_id session_id version now_ms ≡ none) ↔ (
          (l : VolumeLease) × (get (to_string volume_id) s.leases ≡ some l)
          × Entitles l session_id version now_ms)
  unfolding validate_lease
  validate_lease_iff s volume_id session_id version now_ms = go (get (to_string volume_id) s.leases)
    where
      go :
          (o : Option VolumeLease)
          → (check_lease o session_id version now_ms ≡ none)
            ↔ ((l : VolumeLease) × (o ≡ some l) × Entitles l session_id version now_ms)
      go none = (λ h. cc, λ r. absurd (ground arith))
      go (some l) = (
        λ h. (l, refl, (check_lease-some l session_id version now_ms).0 h),
        λ r. (check_lease-some l session_id version now_ms).1 (ground arith),
      )

  -- What a successful `Acquire` has done.
  pub acquire-granted :
      (t : LeaseTerms) (s s' : MetadataState) (v e : ℕ)
      → apply_lease_request to_string (acquire t) s ≡ (s', granted v e)
      → (s' ≡ (grant (to_string t.volume_id) t s).0)
        × (v ≡ next_version s)
        × (e ≡ wrapping_add t.now_ms t.ttl_ms)
  unfolding apply_lease_request
  acquire-granted t s s' v e h = ground arith

  pub acquire-stored :
      (t : LeaseTerms) (s s' : MetadataState) (v e : ℕ)
      → apply_lease_request to_string (acquire t) s ≡ (s', granted v e)
      → get (to_string t.volume_id) s'.leases ≡ some (granted_lease t v e)
  unfolding grant
  acquire-stored t s s' v e h =
      let (next, version, expiry) = acquire-granted t s s' v e h in
      rw (next, version, expiry) (get-insert_self (to_string t.volume_id) _ s.leases)

  -- A granted lease entitles the session and the version that were granted, until the expiry that
  -- was granted, and no other session or version.
  pub acquire-fences :
      (t : LeaseTerms) (s s' : MetadataState) (v e session_id version now_ms : ℕ)
      → apply_lease_request to_string (acquire t) s ≡ (s', granted v e)
      → (validate_lease to_string s' t.volume_id session_id version now_ms ≡ none)
        ↔ ((t.session_id ≡ session_id) × (v ≡ version) × (now_ms < e))
  unfolding validate_lease
  acquire-fences t s s' v e session_id version now_ms h =
      rw (acquire-stored t s s' v e h)
        (check_lease-some (granted_lease t v e) session_id version now_ms)

  renew-renewed :
      (t : LeaseTerms) (s s' : MetadataState) (v e : ℕ) (o : Option VolumeLease)
      → renew_found (to_string t.volume_id) t o s ≡ (s', renewed v e)
      → (l : VolumeLease) × (o ≡ some l)
        × (l.holder ≡ t.session_id)
        × (t.now_ms < l.expires_at_ms)
        × (v ≡ next_version s)
        × (e ≡ wrapping_add t.now_ms t.ttl_ms)
        × (get (to_string t.volume_id) s'.leases
            ≡ some (record l { expires_at_ms = e; lease_version = v }))
  unfolding renew_found
  renew-renewed t s s' v e none h = cc
  renew-renewed t s s' v e (some l) h =
      let next : VolumeLease = record l {
        expires_at_ms = wrapping_add t.now_ms t.ttl_ms;
        lease_version = next_version s;
      } in
      (
        l,
        refl,
        ground arith,
        ground arith,
        ground arith,
        ground arith,
        ground (arith, get-insert_self (to_string t.volume_id) next s.leases),
      )

  -- A renewal succeeds only for the session that holds the lease, before it has expired; it then
  -- entitles that session under the new version alone, until the new expiry.
  pub renew-fences :
      (t : LeaseTerms) (s s' : MetadataState) (v e session_id version now_ms : ℕ)
      → apply_lease_request to_string (renew t) s ≡ (s', renewed v e)
      → ((l : VolumeLease) × (get (to_string t.volume_id) s.leases ≡ some l)
          × (l.holder ≡ t.session_id)
          × (t.now_ms < l.expires_at_ms))
        × ((validate_lease to_string s' t.volume_id session_id version now_ms ≡ none)
            ↔ ((t.session_id ≡ session_id) × (v ≡ version) × (now_ms < e)))
  unfolding apply_lease_request validate_lease
  renew-fences t s s' v e session_id version now_ms h =
      let (l, found, holder, alive, _, _, stored) =
        renew-renewed t s s' v e (get (to_string t.volume_id) s.leases) h in
      (
        (l, found, holder, alive),
        rw stored (
            ground (
              arith,
              check_lease-some (record l { expires_at_ms = e; lease_version = v }) session_id
                  version now_ms,
              holder,
            )),
      )
