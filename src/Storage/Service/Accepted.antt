-- ===== src/Storage/Service/Accepted.antt =====
-- What the data node has checked of a write that it completes
-- (crates/blockyard-storage/src/service.rs, `handle_write`).
use blockyard.Common.{
  ℕ-eq, ℕ, ◌≡◌, ◌≤◌, ◌∙◌, refl, ◌⊎◌, inl, inr, String, true, Bool-cases, Option, none, some, List,
  if◌then◌else◌, nat_eq, nat_eq_iff, arith,
}
use mathlib.Core.Path.{subst}
use blockyard.Common.Maps.{Map, get}
use blockyard.Storage.Extents.{file_steps, stage_steps, commit_steps}
use blockyard.Storage.Acl.{PeerIdentity, check_write}
use blockyard.Storage.Service.{
  ServiceError, payload_mismatch, OperationRecord, WriteExtentRequest, WriteExtentResponse,
  ExtentStore, DataNodeService, lease_allows, validate_epoch, validate_write_lease, check_duplicate,
  write_error,
}
use blockyard.Storage.Service.Disk.{select_write_disk, Faults, Fault}
use blockyard.Storage.Service.Write.{
  or_else, and_then, store_of, admit, put_slot, commit_meta, write_completed, on_staged,
  store_payload, on_admitted, unless_duplicate, handle_write,
}
use blockyard.Storage.Service.Choice.{Eligible, select_write_disk-Eligible}

or_else-inr :
    {A : Type 0} (o : Option ServiceError) (x : ServiceError ⊎ A) (a : A)
    → or_else o x ≡ inr a
    → (o ≡ none) × (x ≡ inr a)
or_else-inr none x a h = (refl, h)
or_else-inr (some e) x a h = cc

and_then-inr :
    {A B : Type 0} (x : ServiceError ⊎ A) (f : A → ServiceError ⊎ B) (b : B)
    → and_then x f ≡ inr b
    → (a : A) × (x ≡ inr a) × (f a ≡ inr b)
and_then-inr (inl e) f b h = cc
and_then-inr (inr a) f b h = (a, refl, h)

store_of-inr :
    (d : ℕ) (o : Option ExtentStore) (x : ℕ × ExtentStore)
    → store_of d o ≡ inr x
    → (d ≡ x.0) × (o ≡ some x.1)
store_of-inr d none x h = cc
store_of-inr d (some store) x h = let same : ◌≡◌ {A = ℕ × ExtentStore} (d, store) x = cc in (cc, cc)

-- The checks that an admitted write has passed.
abbrev pub Admitted :
    (List ℕ → ℕ) → WriteExtentRequest → List ℕ → DataNodeService → ℕ → ExtentStore → Type 0
Admitted compute_checksum r payload s d store =
    (s.current_epoch ≤ r.epoch)
    × (lease_allows (get r.volume_id s.lease_cache) r ≡ none)
    × Eligible s.inventory d
    × (r.checksum ≡ compute_checksum payload)
    × (get d s.stores ≡ some store)

module _ (compute_checksum : List ℕ → ℕ) where
  validate_epoch-none :
      (epoch : ℕ) (s : DataNodeService) → validate_epoch epoch s ≡ none → s.current_epoch ≤ epoch
  unfolding validate_epoch
  validate_epoch-none epoch s h = ground arith

  checked-store :
      (r : WriteExtentRequest) (payload : List ℕ) (s : DataNodeService) (d : ℕ)
      (x : ℕ × ExtentStore)
      → (if nat_eq r.checksum (compute_checksum payload)
          then store_of d (get d s.stores)
          else inl payload_mismatch)
        ≡ inr x
      → (r.checksum ≡ compute_checksum payload) × (d ≡ x.0) × (get d s.stores ≡ some x.1)
  checked-store r payload s d x h =
      elim (Bool-cases (nat_eq r.checksum (compute_checksum payload))) [
        | inl e ↦
            let found : store_of d (get d s.stores) ≡ inr x = cc in
            let (same, has) = store_of-inr d (get d s.stores) x found in
            ((nat_eq_iff r.checksum (compute_checksum payload)).0 e, same, has)
        | inr e ↦ cc
      ]

  admit-Admitted :
      (r : WriteExtentRequest) (payload : List ℕ) (s : DataNodeService) (x : ℕ × ExtentStore)
      → admit compute_checksum r payload s ≡ inr x
      → Admitted compute_checksum r payload s x.0 x.1
  unfolding admit validate_write_lease
  admit-Admitted r payload s x h =
      let pick : ServiceError ⊎ ℕ = select_write_disk r.target_disk_id s.inventory in
      let to_store : ℕ → ServiceError ⊎ (ℕ × ExtentStore) = λ (d : ℕ).
        if nat_eq r.checksum (compute_checksum payload)
        then store_of d (get d s.stores)
        else inl payload_mismatch in
      let (fresh, h1) =
        or_else-inr (validate_epoch r.epoch s)
          (or_else (validate_write_lease r s) (and_then pick to_store)) x h in
      let (leased, h2) = or_else-inr (validate_write_lease r s) (and_then pick to_store) x h1 in
      let (d, chosen, h3) = and_then-inr pick to_store x h2 in
      let (sum, same, has) = checked-store r payload s d x h3 in
      let good = select_write_disk-Eligible r.target_disk_id s.inventory d chosen in
      (
        validate_epoch-none r.epoch s fresh,
        leased,
        subst (λ (e : ℕ). Eligible s.inventory e) same good,
        sum,
        subst (λ (e : ℕ). get e s.stores ≡ some x.1) same has,
      )

  module _ (iteration : Map ℕ OperationRecord → List ℕ) (generated now : ℕ) where
    -- The end of a write that meets no fault.
    abbrev pub completed :
        ℕ × ExtentStore
        → WriteExtentRequest
        → List ℕ
        → DataNodeService
        → DataNodeService × WriteExtentResponse
    completed (d, store) r payload s =
        let m = commit_meta compute_checksum now r payload store in
        let staged = file_steps (stage_steps payload) (store.files r.extent_id r.extent_version) in
        write_completed iteration d r m (put_slot d store r (file_steps (commit_steps m) staged) s)

    store_payload-completed :
        (f g : Option Fault) (d : ℕ) (store : ExtentStore) (r : WriteExtentRequest)
        (payload : List ℕ) (s : DataNodeService)
        → (store_payload compute_checksum iteration generated now f g d store r payload s).1.success
          ≡ true
        → store_payload compute_checksum iteration generated now f g d store r payload s
          ≡ completed (d, store) r payload s
    unfolding store_payload on_staged write_error
    store_payload-completed none none d store r payload s h = refl
    store_payload-completed (some f) g d store r payload s h = cc
    store_payload-completed none (some g) d store r payload s h = cc

    on_admitted-completed :
        (o : ServiceError ⊎ (ℕ × ExtentStore)) (faults : Faults) (r : WriteExtentRequest)
        (payload : List ℕ) (s : DataNodeService)
        → (on_admitted compute_checksum iteration generated now o faults r payload s).1.success
          ≡ true
        → (x : ℕ × ExtentStore) × (o ≡ inr x)
          × (on_admitted compute_checksum iteration generated now o faults r payload s
              ≡ completed x r payload s)
    unfolding on_admitted write_error
    on_admitted-completed (inl e) faults r payload s h = cc
    on_admitted-completed (inr (d, store)) faults r payload s h = (
      (d, store),
      refl,
      store_payload-completed faults.staging faults.committing d store r payload s h,
    )

    handle_write-first :
        (to_string : PeerIdentity → String) (faults : Faults) (r : WriteExtentRequest)
        (payload : List ℕ) (caller : PeerIdentity) (s : DataNodeService)
        → check_duplicate r.operation_id s ≡ none
        → check_write to_string r.volume_id caller s.volume_acl ≡ true
        → handle_write compute_checksum iteration generated now to_string faults r payload caller s
          ≡ on_admitted compute_checksum iteration generated now
              (admit compute_checksum r payload s)
              faults
              r
              payload
              s
    unfolding handle_write unless_duplicate
    handle_write-first to_string faults r payload caller s first allowed = rw (allowed, first) refl

    -- A write that succeeds, and repeats no operation on record, has passed all checks and is
    -- completed in the store of the disk it reports.
    pub handle_write-completed :
        (to_string : PeerIdentity → String) (faults : Faults) (r : WriteExtentRequest)
        (payload : List ℕ) (caller : PeerIdentity) (s : DataNodeService)
        → check_duplicate r.operation_id s ≡ none
        → (handle_write compute_checksum iteration generated now to_string faults r payload caller
            s).1.success
          ≡ true
        → (check_write to_string r.volume_id caller s.volume_acl ≡ true)
          × ((x : ℕ × ExtentStore) × Admitted compute_checksum r payload s x.0 x.1
              × (handle_write compute_checksum iteration generated now to_string faults r payload
                    caller s
                  ≡ completed x r payload s))
    unfolding handle_write unless_duplicate write_error
    handle_write-completed to_string faults r payload caller s first h =
        elim (Bool-cases (check_write to_string r.volume_id caller s.volume_acl)) [
          | inl e ↦
              let same = handle_write-first to_string faults r payload caller s first e in
              let h' =
                subst (λ (y : DataNodeService × WriteExtentResponse). y.1.success ≡ true) same h in
              let (x, admitted, ended) =
                on_admitted-completed (admit compute_checksum r payload s) faults r payload s h' in
              (e, (x, admit-Admitted r payload s x admitted, same ∙ ended))
          | inr e ↦ cc
        ]
