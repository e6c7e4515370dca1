-- ===== src/Metadata/LeaseLaws/Cleanup.antt =====
-- The removal of expired leases.

use blockyard.Common.{
  ℕ-eq, String-eq, ℕ, String, ◌≡◌, ◌≤◌, ◌+◌, ◌↔◌, refl, Option, none, some, [], ◌∷◌, arith, Bool,
  not, length, keep,
}
use blockyard.Common.Maps.{Map, get, retain, values, kept, IsDistinct, get-retain}
use blockyard.Lease.{VolumeLease, is_expired}
use blockyard.Metadata.State.{MetadataState}
use blockyard.Metadata.Leases.{cleanup_expired, validate_lease, check_lease, list_active_leases}

keep-values-retain :
    (p : VolumeLease → Bool) (m : Map String VolumeLease)
    → keep p (values (retain p m)) ≡ keep p (values m)
unfolding keep values retain
keep-values-retain p [] = refl
keep-values-retain p ((k, l) ∷ m) = ground (arith, keep-values-retain p m)

length-retain :
    (p : VolumeLease → Bool) (m : Map String VolumeLease)
    → length (retain p m) ≡ length (keep p (values m))
unfolding keep values retain
length-retain p [] = refl
length-retain p ((k, l) ∷ m) = ground (arith, length-retain p m)

length-keep-values :
    (p : VolumeLease → Bool) (m : Map String VolumeLease) → length (keep p (values m)) ≤ length m
unfolding keep values
length-keep-values p [] = omega arith
length-keep-values p ((k, l) ∷ m) = ground (arith, length-keep-values p m)

-- The clean-up leaves the active leases as they are, and answers with the number of the others.
pub cleanup_expired-active :
    (s : MetadataState) (now_ms : ℕ)
    → (list_active_leases (cleanup_expired now_ms s).0 now_ms ≡ list_active_leases s now_ms)
      × (length (cleanup_expired now_ms s).0.leases ≡ length (list_active_leases s now_ms))
      × ((cleanup_expired now_ms s).1 + length (list_active_leases s now_ms) ≡ length s.leases)
unfolding cleanup_expired list_active_leases
cleanup_expired-active s now_ms =
    let p : VolumeLease → Bool = λ l. not (is_expired l now_ms) in
    (
      keep-values-retain p s.leases,
      length-retain p s.leases,
      omega (arith, length-retain p s.leases, length-keep-values p s.leases),
    )

module _ (to_string : ℕ → String) where
  -- The clean-up is invisible to the fencing of writes: at the time of the clean-up and later,
  -- `validate_lease` accepts the same sessions and versions as without it.
  pub cleanup_expired-fencing :
      (s : MetadataState) (cleaned_ms volume_id session_id version now_ms : ℕ)
      → IsDistinct s.leases
      → cleaned_ms ≤ now_ms
      → (validate_lease to_string
            (cleanup_expired cleaned_ms s).0
            volume_id
            session_id
            version
            now_ms
          ≡ none)
        ↔ (validate_lease to_string s volume_id session_id version now_ms ≡ none)
  unfolding cleanup_expired validate_lease
  cleanup_expired-fencing s cleaned_ms volume_id session_id version now_ms distinct later =
      rw (get-retain (λ l. not (is_expired l cleaned_ms)) (to_string volume_id) s.leases distinct)
        (go (get (to_string volume_id) s.leases))
    where
      go :
          (o : Option VolumeLease)
          → (check_lease (kept (λ l. not (is_expired l cleaned_ms)) o) session_id version now_ms
              ≡ none)
            ↔ (check_lease o session_id version now_ms ≡ none)
      go none = (λ h. h, λ h. h)
      go (some l) = (λ h. ground arith, λ h. ground arith)
