-- ===== src/Metadata/LeaseLaws/Holding.antt =====
-- A lease over any requests of a log (crates/blockyard-raft/src/state_machine.rs).
use text.Mathlib.TextEquality.{eq_iff}
use blockyard.Common.{
  ℕ-eq, String-eq, ℕ, String, ◌≡◌, ◌≢◌, ◌<◌, ◌⊎◌, inl, inr, refl, sym, ◌∙◌, ap, Option, none, some,
  List, [], ◌∷◌, arith, not, Bool, true, All, Option-cases, Bool-cases,
}
use blockyard.Common.Maps.{Map, get, remove, retain, contains_key, get-remove}
use blockyard.Lease.{VolumeLease, is_expired}
use blockyard.Metadata.State.{
  MetadataState, MetadataRequest, Outcome, delete_volume, register_node, register_disk,
  update_disk_usage, deregister_disk, cleanup_expired_leases,
}
use blockyard.Metadata.Leases.{validate_lease, cleanup_expired}
use blockyard.Metadata.Apply.{apply_request, replay, follow, register, set_usage, put_node, delete}
use blockyard.Metadata.CommitLaws.Epochs.{Keeps, Keeps-mono}
use blockyard.Metadata.Frame.{SameRest, request-SameRest, delete-rest, IsMapping}
use blockyard.Metadata.LeaseLaws.Fencing.{check_lease-some}
use blockyard.Metadata.LeaseLaws.Exclusion.{Foreign, rival_step}

abbrev leases_of : Option MetadataState → Map String VolumeLease
leases_of none = []
leases_of (some s) = s.leases

retain-found :
    (p : VolumeLease → Bool) (key : String) (l : VolumeLease) (m : Map String VolumeLease)
    → p l ≡ true
    → get key m ≡ some l
    → get key (retain p m) ≡ some l
unfolding get retain
retain-found p key l [] stays here = here
retain-found p key l ((j, w) ∷ m) stays here = ground (arith, retain-found p key l m stays)

module _ (to_string : ℕ → String) where
  -- A request that is not for the end of a lease: a lease request of another session by a time before
  -- the expiry, the deletion of another volume, a clean-up by a time before the expiry, or a request
  -- about anything else.
  abbrev pub Spares : String → VolumeLease → MetadataRequest → Type 0
  Spares key l (MetadataRequest.lease r) = Foreign l.holder l.expires_at_ms r
  Spares key l (delete_volume v) = to_string v ≢ key
  Spares key l (cleanup_expired_leases now_ms) = now_ms < l.expires_at_ms
  Spares key l req = Unit

  module _ (key : String) (l : VolumeLease) where
    abbrev Holds : MetadataState → Type 0
    Holds s = get key s.leases ≡ some l

    same-Holds : (s t : MetadataState) → Holds s → t.leases ≡ s.leases → Holds t
    same-Holds s t here same = ap (get key) same ∙ here

    mapping-Holds :
        (req : MetadataRequest) (s : MetadataState)
        → IsMapping req
        → Holds s
        → Keeps Holds (apply_request to_string req s)
    mapping-Holds req s one here =
        Keeps-mono (SameRest s) Holds (apply_request to_string req s)
          (λ t same. same-Holds s t here same.0) (request-SameRest to_string req s one)

    request-Holds :
        (req : MetadataRequest) (s : MetadataState)
        → Spares key l req
        → Holds s
        → Keeps Holds (apply_request to_string req s)
    unfolding apply_request register set_usage put_node cleanup_expired is_expired
    request-Holds (MetadataRequest.lease r) s spares here =
        rival_step to_string r s key l here spares
    request-Holds (delete_volume v) s spares here =
        Keeps-mono _ Holds (delete to_string v s) (λ t rest. dropped t rest.0)
          (delete-rest to_string v s)
      where
        dropped :
            (t : MetadataState)
            → ((t.leases ≡ s.leases) ⊎ (t.leases ≡ remove (to_string v) s.leases))
            → Holds t
        dropped t (inl same) = same-Holds s t here same
        dropped t (inr gone) =
            ap (get key) gone
            ∙ ground (arith, eq_iff (to_string v) key, get-remove (to_string v) key s.leases)
    request-Holds (cleanup_expired_leases now) s spares here =
        retain-found (λ m. not (is_expired m now)) key l s.leases (ground arith) here
    request-Holds (register_node node_id addr) s spares here =
        elim (Option-cases (get node_id s.node_raft_map)) [
          | inl e ↦ rw (e, register) here
          | inr (i, e) ↦ rw (e, register) here
        ]
    request-Holds (register_disk d i c) s spares here = here
    request-Holds (update_disk_usage d u) s spares here =
        elim (Option-cases (get d s.cluster_disks)) [
          | inl e ↦ rw (e, set_usage) here
          | inr (i, e) ↦ rw (e, set_usage) here
        ]
    request-Holds (deregister_disk d) s spares here =
        elim (Bool-cases (contains_key d s.cluster_disks)) [ inl e ↦ rw e here | inr e ↦ rw e here ]
    request-Holds req s spares here = mapping-Holds req s tt here

    follow-Holds :
        (o : Outcome) (rs : List MetadataRequest) (s' : MetadataState)
        → Keeps Holds o
        → ((s : MetadataState) → Holds s → replay to_string rs s ≡ some s' → Holds s')
        → follow o (replay to_string rs) ≡ some s'
        → Holds s'
    unfolding follow
    follow-Holds none rs s' kept later ran = cc
    follow-Holds (some (s, resp)) rs s' kept later ran = later s kept ran

    replay-Holds :
        (rs : List MetadataRequest) (s s' : MetadataState)
        → All (Spares key l) rs
        → Holds s
        → replay to_string rs s ≡ some s'
        → Holds s'
    unfolding replay
    replay-Holds [] s s' spares here ran = same-Holds s s' here (ap leases_of (sym ran))
    replay-Holds (req ∷ rs) s s' spares here ran =
        follow-Holds (apply_request to_string req s) rs s' (request-Holds req s spares.0 here)
          (λ t kept. replay-Holds rs t s' spares.1 kept) ran

  -- The holder of a lease passes `validate_lease` with its version at every time before the expiry,
  -- after any log of requests that deletes another volume at most, and whose lease requests come from
  -- other sessions and, like its clean-ups, by times before the expiry.
  pub holder-entitled :
      (rs : List MetadataRequest) (s s' : MetadataState) (volume_id now_ms : ℕ) (l : VolumeLease)
      → get (to_string volume_id) s.leases ≡ some l
      → All (Spares (to_string volume_id) l) rs
      → now_ms < l.expires_at_ms
      → replay to_string rs s ≡ some s'
      → validate_lease to_string s' volume_id l.holder l.lease_version now_ms ≡ none
  unfolding validate_lease
  holder-entitled rs s s' volume_id now_ms l here spares alive ran =
      rw (replay-Holds (to_string volume_id) l rs s s' spares here ran)
        ((check_lease-some l l.holder l.lease_version now_ms).1 (refl, refl, alive))
