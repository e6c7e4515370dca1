-- ===== src/Metadata/LeaseLaws/Versions.antt =====
-- The versions of the leases over a log.
use text.Mathlib.TextEquality.{eq_iff}
use blockyard.Common.{ℕ-eq, String-eq, ℕ, suc, String, ◌≡◌, ◌≤◌, ◌<◌, ◌+◌, some, arith, u64_mod}
use blockyard.Common.Maps.{
  get, insert, remove, IsDistinct, get-insert, get-remove, insert-IsDistinct, remove-IsDistinct,
}
use blockyard.Lease.{VolumeLease}
use blockyard.Metadata.State.{MetadataState}
use blockyard.Metadata.Leases.{next_version}

-- Leases have distinct versions, all at most the counter, and the counter is at most the number of
-- requests that have been applied.
pub record VersionInv (n : ℕ) (s : MetadataState) : Type 0 where
  pub counted : s.lease_version_counter ≤ n
  pub once : IsDistinct s.leases
  pub bounded :
      (k : String) (l : VolumeLease)
      → get k s.leases ≡ some l
      → l.lease_version ≤ s.lease_version_counter
  pub distinct :
      (j k : String) (a b : VolumeLease)
      → get j s.leases ≡ some a
      → get k s.leases ≡ some b
      → a.lease_version ≡ b.lease_version
      → j ≡ k

pub put-VersionInv :
    (n : ℕ) (s : MetadataState) (key : String) (l : VolumeLease)
    → suc n < u64_mod
    → VersionInv n s
    → l.lease_version ≡ next_version s
    → VersionInv
        (suc n)
        (record s { leases = insert key l s.leases; lease_version_counter = next_version s })
unfolding next_version
put-VersionInv n s key l fits inv e =
    let step : next_version s ≡ s.lease_version_counter + 1 = ground (arith, inv.counted) in
    record {
      counted = omega (arith, inv.counted);
      once = insert-IsDistinct key l s.leases inv.once;
      bounded = λ k a h. ground (arith, step, inv.bounded k a, get-insert key k l s.leases);
      distinct = λ j k a b hj hk same. ground (
        arith,
        step,
        eq_iff key j,
        eq_iff key k,
        get-insert key j l s.leases,
        get-insert key k l s.leases,
        inv.bounded j a,
        inv.bounded k b,
        inv.distinct j k a b,
      );
    }

-- Fewer leases, the same counter.
pub fewer-VersionInv :
    (n : ℕ) (s t : MetadataState)
    → VersionInv n s
    → t.lease_version_counter ≡ s.lease_version_counter
    → IsDistinct t.leases
    → ((k : String) (l : VolumeLease) → get k t.leases ≡ some l → get k s.leases ≡ some l)
    → VersionInv (suc n) t
fewer-VersionInv n s t inv same once sub = record {
  counted = omega (arith, inv.counted);
  once = once;
  bounded = λ k l h. omega (arith, inv.bounded k l (sub k l h));
  distinct = λ j k a b hj hk. inv.distinct j k a b (sub j a hj) (sub k b hk);
}

pub same-VersionInv :
    (n : ℕ) (s t : MetadataState)
    → VersionInv n s
    → t.leases ≡ s.leases
    → t.lease_version_counter ≡ s.lease_version_counter
    → VersionInv (suc n) t
same-VersionInv n s t inv leases counter =
    fewer-VersionInv n s t inv counter (rw leases inv.once) (λ k l h. rw leases at h)

pub remove-VersionInv :
    (n : ℕ) (s t : MetadataState) (key : String)
    → VersionInv n s
    → t.leases ≡ remove key s.leases
    → t.lease_version_counter ≡ s.lease_version_counter
    → VersionInv (suc n) t
remove-VersionInv n s t key inv leases counter =
    fewer-VersionInv n s t inv counter (rw leases (remove-IsDistinct key s.leases inv.once))
      (λ k l h. ground (arith, get-remove key k s.leases, leases))
