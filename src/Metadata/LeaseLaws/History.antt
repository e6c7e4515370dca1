-- ===== src/Metadata/LeaseLaws/History.antt =====
-- The versions of the leases over a log.

use blockyard.Common.{
  ℕ-eq, String-eq, ℕ, suc, String, ◌≡◌, ◌<◌, ◌⊎◌, refl, sym, ◌∙◌, Option, none, some, List, arith,
  Option-cases, Bool-cases, Bool, not, inl, inr, u64_mod, length,
}
use blockyard.Common.Maps.{get, remove, contains_key, kept, get-retain, retain-IsDistinct}
use blockyard.Lease.{
  VolumeLease, LeaseTerms, LeaseRequest, acquire, renew, release, granted, is_expired, is_held_by,
}
use blockyard.Metadata.State.{MetadataState, MetadataRequest, initial}
use blockyard.Metadata.Leases.{
  apply_lease_request, cleanup_expired, blocks, renew_found, release_found, next_version,
}
use blockyard.Metadata.LeaseLaws.Fencing.{acquire-granted}
use blockyard.Metadata.Apply.{apply_request, replay}
use blockyard.Metadata.State.{
  delete_volume, register_node, register_disk, update_disk_usage, deregister_disk,
  cleanup_expired_leases,
}
use blockyard.Metadata.Apply.{register, set_usage, put_node, delete}
use blockyard.Metadata.CommitLaws.Epochs.{Keeps, Keeps-mono}
use blockyard.Metadata.Frame.{SameRest, request-SameRest, delete-rest, IsMapping}
use blockyard.Metadata.LeaseLaws.Versions.{
  VersionInv, fewer-VersionInv, same-VersionInv, remove-VersionInv, put-VersionInv,
}
use blockyard.Metadata.Counted.{replay-from_zero}

module _ (to_string : ℕ → String) where
  renew-VersionInv :
      (n : ℕ) (s : MetadataState) (key : String) (t : LeaseTerms) (o : Option VolumeLease)
      → suc n < u64_mod
      → VersionInv n s
      → VersionInv (suc n) (renew_found key t o s).0
  unfolding renew_found
  renew-VersionInv n s key t none fits inv = same-VersionInv n s s inv refl refl
  renew-VersionInv n s key t (some l) fits inv =
      let same : VersionInv (suc n) s = same-VersionInv n s s inv refl refl in
      elim (Bool-cases (is_held_by l t.session_id)) [
        | inr other ↦ rw other same
        | inl holder ↦ elim (Bool-cases (is_expired l t.now_ms)) [
          | inl over ↦ rw (holder, over) same
          | inr alive ↦ rw (holder, alive) (put-VersionInv n s key _ fits inv refl)
        ]
      ]

  release-VersionInv :
      (n : ℕ) (s : MetadataState) (key : String) (session_id : ℕ) (o : Option VolumeLease)
      → VersionInv n s
      → VersionInv (suc n) (release_found key session_id o s).0
  unfolding release_found
  release-VersionInv n s key session_id none inv = same-VersionInv n s s inv refl refl
  release-VersionInv n s key session_id (some l) inv = elim (Bool-cases (is_held_by l session_id)) [
    | inr other ↦ rw other (same-VersionInv n s s inv refl refl)
    | inl holder ↦ rw holder (remove-VersionInv n s _ key inv refl refl)
  ]

  lease-VersionInv :
      (n : ℕ) (s : MetadataState) (r : LeaseRequest)
      → suc n < u64_mod
      → VersionInv n s
      → VersionInv (suc n) (apply_lease_request to_string r s).0
  unfolding apply_lease_request
  lease-VersionInv n s (acquire t) fits inv =
      let key = to_string t.volume_id in
      let same : VersionInv (suc n) s = same-VersionInv n s s inv refl refl in
      elim (Bool-cases (contains_key key s.volumes)) [
        | inr absent ↦ rw absent same
        | inl there ↦ elim (Bool-cases (blocks (get key s.leases) t)) [
          | inl taken ↦ rw (there, taken) same
          | inr free ↦ rw (there, free) (put-VersionInv n s key _ fits inv refl)
        ]
      ]
  lease-VersionInv n s (renew t) fits inv =
      renew-VersionInv n s (to_string t.volume_id) t _ fits inv
  lease-VersionInv n s (release volume_id session_id) fits inv =
      release-VersionInv n s (to_string volume_id) session_id _ inv

  kept-some :
      (p : VolumeLease → Bool) (o : Option VolumeLease) (l : VolumeLease)
      → kept p o ≡ some l
      → o ≡ some l
  kept-some p none l h = h
  kept-some p (some m) l h = ground arith

  mapping-VersionInv :
      (req : MetadataRequest) (n : ℕ) (s : MetadataState)
      → IsMapping req
      → VersionInv n s
      → Keeps (VersionInv (suc n)) (apply_request to_string req s)
  mapping-VersionInv req n s one inv =
      Keeps-mono (SameRest s) (VersionInv (suc n)) (apply_request to_string req s)
        (λ t same. same-VersionInv n s t inv same.0 same.1) (request-SameRest to_string req s one)

  pub request-VersionInv :
      (req : MetadataRequest) (n : ℕ) (s : MetadataState)
      → suc n < u64_mod
      → VersionInv n s
      → Keeps (VersionInv (suc n)) (apply_request to_string req s)
  unfolding apply_request register set_usage put_node cleanup_expired
  request-VersionInv (MetadataRequest.lease r) n s fits inv = lease-VersionInv n s r fits inv
  request-VersionInv (delete_volume v) n s fits inv =
      Keeps-mono _ (VersionInv (suc n)) (delete to_string v s) (λ t rest. dropped t rest.0 rest.1)
        (delete-rest to_string v s)
    where
      dropped :
          (t : MetadataState)
          → ((t.leases ≡ s.leases) ⊎ (t.leases ≡ remove (to_string v) s.leases))
          → t.lease_version_counter ≡ s.lease_version_counter
          → VersionInv (suc n) t
      dropped t (inl same) counter = same-VersionInv n s t inv same counter
      dropped t (inr gone) counter = remove-VersionInv n s t (to_string v) inv gone counter
  request-VersionInv (cleanup_expired_leases now) n s fits inv =
      let p : VolumeLease → Bool = λ l. not (is_expired l now) in
      fewer-VersionInv n s _ inv refl (retain-IsDistinct p s.leases inv.once)
        (λ k l h. kept-some p (get k s.leases) l (sym (get-retain p k s.leases inv.once) ∙ h))
  request-VersionInv (register_node node_id addr) n s fits inv =
      elim (Option-cases (get node_id s.node_raft_map)) [
        | inl e ↦ rw (e, register) (same-VersionInv n s _ inv refl refl)
        | inr (i, e) ↦ rw (e, register) (same-VersionInv n s _ inv refl refl)
      ]
  request-VersionInv (register_disk d i c) n s fits inv = same-VersionInv n s _ inv refl refl
  request-VersionInv (update_disk_usage d u) n s fits inv =
      elim (Option-cases (get d s.cluster_disks)) [
        | inl e ↦ rw (e, set_usage) (same-VersionInv n s _ inv refl refl)
        | inr (i, e) ↦ rw (e, set_usage) (same-VersionInv n s _ inv refl refl)
      ]
  request-VersionInv (deregister_disk d) n s fits inv =
      elim (Bool-cases (contains_key d s.cluster_disks)) [
        | inl e ↦ rw e (same-VersionInv n s _ inv refl refl)
        | inr e ↦ rw e (same-VersionInv n s _ inv refl refl)
      ]
  request-VersionInv req n s fits inv = mapping-VersionInv req n s tt inv

  reached :
      (log : List MetadataRequest) (s : MetadataState)
      → length log < u64_mod
      → replay to_string log initial ≡ some s
      → VersionInv (length log) s
  unfolding get
  reached log s short e = rw e at (
      replay-from_zero to_string VersionInv (request-VersionInv) log initial short (record {
        counted = omega arith;
        once = tt;
        bounded = λ k l h. cc;
        distinct = λ j k a b hj hk same. cc;
      }))

  -- After any log of fewer than 2^64 requests, no two volumes have leases of the same version.
  pub lease-versions_distinct :
      (log : List MetadataRequest) (s : MetadataState) (j k : String) (a b : VolumeLease)
      → length log < u64_mod
      → replay to_string log initial ≡ some s
      → get j s.leases ≡ some a
      → get k s.leases ≡ some b
      → a.lease_version ≡ b.lease_version
      → j ≡ k
  lease-versions_distinct log s j k a b short e hj hk same =
      (reached log s short e).distinct j k a b hj hk same

  -- After any log of fewer than 2^64 - 1 requests, a lease that is then granted has a higher
  -- version than every lease in force.
  pub acquire-newest :
      (log : List MetadataRequest) (s s' : MetadataState) (t : LeaseTerms) (v e : ℕ) (k : String)
      (l : VolumeLease)
      → suc (length log) < u64_mod
      → replay to_string log initial ≡ some s
      → apply_lease_request to_string (acquire t) s ≡ (s', granted v e)
      → get k s.leases ≡ some l
      → l.lease_version < v
  unfolding next_version
  acquire-newest log s s' t v e k l short r h here =
      let inv = reached log s (omega arith) r in
      let (_, version, _) = acquire-granted to_string t s s' v e h in
      ground (arith, inv.bounded k l here, inv.counted, version)
