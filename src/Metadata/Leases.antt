-- ===== src/Metadata/Leases.antt =====
-- crates/blockyard-raft/src/state_machine.rs: `apply_lease_request`, `validate_lease` and
-- `cleanup_expired_leases`. Sums of times and the version counter wrap at 64 bits, as in a release
-- build.
use blockyard.Common.{
  ℕ-eq, String-eq, ℕ, ◌-◌, String, Bool, false, not, ◌&&◌, Option, none, some, List, nat_eq,
  wrapping_add, if◌then◌else◌, length, keep,
}
use blockyard.Common.Maps.{get, insert, remove, retain, values, contains_key}
use blockyard.Lease.{
  VolumeLease, LeaseTerms, LeaseRequest, LeaseResponse, acquire, renew, release, granted, renewed,
  released, denied, no_such_volume, held_by_other, no_lease, expired, is_expired, is_held_by,
}
use blockyard.Metadata.State.{MetadataState}

unfoldable pub next_version : MetadataState → ℕ
next_version s = wrapping_add s.lease_version_counter 1

-- The tail of `Acquire`: the new lease replaces what the volume had.
unfoldable pub grant : String → LeaseTerms → MetadataState → MetadataState × LeaseResponse
unfolding next_version
grant key t s = (
  record s {
    leases =
        insert key
          (record {
            volume_id = t.volume_id;
            holder = t.session_id;
            granted_at_ms = t.now_ms;
            expires_at_ms = wrapping_add t.now_ms t.ttl_ms;
            lease_version = next_version s;
          })
          s.leases;
    lease_version_counter = next_version s;
  },
  granted (next_version s) (wrapping_add t.now_ms t.ttl_ms),
)

unfoldable pub blocks : Option VolumeLease → LeaseTerms → Bool
unfolding is_expired is_held_by
blocks none t = false
blocks (some existing) t =
    not (is_expired existing t.now_ms) && not (is_held_by existing t.session_id)

-- The tail of `Renew`, on the lease that the volume has.
unfoldable pub extend :
    String → LeaseTerms → VolumeLease → MetadataState → MetadataState × LeaseResponse
unfolding next_version
extend key t existing s = (
  record s {
    leases =
        insert key
          (record existing {
            expires_at_ms = wrapping_add t.now_ms t.ttl_ms;
            lease_version = next_version s;
          })
          s.leases;
    lease_version_counter = next_version s;
  },
  renewed (next_version s) (wrapping_add t.now_ms t.ttl_ms),
)

unfoldable pub renew_found :
    String → LeaseTerms → Option VolumeLease → MetadataState → MetadataState × LeaseResponse
unfolding extend is_expired is_held_by
renew_found key t none s = (s, denied no_lease)
renew_found key t (some existing) s =
    if not (is_held_by existing t.session_id)
    then (s, denied held_by_other)
    else if is_expired existing t.now_ms
    then (s, denied expired)
    else extend key t existing s

unfoldable pub release_found :
    String → ℕ → Option VolumeLease → MetadataState → MetadataState × LeaseResponse
unfolding is_held_by
release_found key session_id none s = (s, released)
release_found key session_id (some existing) s =
    if is_held_by existing session_id
    then (record s { leases = remove key s.leases }, released)
    else (s, denied held_by_other)

unfoldable pub cleanup_expired : ℕ → MetadataState → MetadataState × ℕ
unfolding is_expired
cleanup_expired now_ms s =
    let left = retain (λ l. not (is_expired l now_ms)) s.leases in
    (record s { leases = left }, length s.leases - length left)

unfoldable pub list_active_leases : MetadataState → ℕ → List VolumeLease
unfolding is_expired
list_active_leases s now_ms = keep (λ l. not (is_expired l now_ms)) (values s.leases)

pub data LeaseFault : Type 0 where
  lease_missing wrong_holder lease_expired stale_version : LeaseFault

-- `none` stands for `Ok(())`.
unfoldable pub check_lease : Option VolumeLease → ℕ → ℕ → ℕ → Option LeaseFault
unfolding is_expired is_held_by
check_lease none session_id version now_ms = some lease_missing
check_lease (some l) session_id version now_ms =
    if not (is_held_by l session_id)
    then some wrong_holder
    else if is_expired l now_ms
    then some lease_expired
    else if not (nat_eq l.lease_version version)
    then some stale_version
    else none

module _ (to_string : ℕ → String) where
  unfoldable pub apply_lease_request : LeaseRequest → MetadataState → MetadataState × LeaseResponse
  unfolding grant blocks renew_found release_found
  apply_lease_request (acquire t) s =
      let key = to_string t.volume_id in
      if not (contains_key key s.volumes)
      then (s, denied no_such_volume)
      else if blocks (get key s.leases) t
      then (s, denied held_by_other)
      else grant key t s
  apply_lease_request (renew t) s =
      let key = to_string t.volume_id in renew_found key t (get key s.leases) s
  apply_lease_request (release volume_id session_id) s =
      let key = to_string volume_id in release_found key session_id (get key s.leases) s

  unfoldable pub validate_lease : MetadataState → ℕ → ℕ → ℕ → ℕ → Option LeaseFault
  unfolding check_lease
  validate_lease s volume_id session_id version now_ms =
      check_lease (get (to_string volume_id) s.leases) session_id version now_ms
