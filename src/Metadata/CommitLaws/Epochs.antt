-- ===== src/Metadata/CommitLaws/Epochs.antt =====
-- The placement epoch over a log, and requests that are refused.
use blockyard.Common.{
  ℕ-eq, String-eq, ℕ, String, ◌≡◌, ◌≤◌, ◌<◌, refl, ◌∙◌, ap, Option, none, some, List, [], ◌∷◌,
  arith, Bool-cases, true, false, nat_eq, inl, inr, u64_mod,
}
use blockyard.Common.Maps.{Map, get, remove, values, contains_key}
use blockyard.Metadata.State.{
  MetadataState, MetadataResponse, MetadataError, MetadataRequest, Outcome, ExtentMapping,
  ExtentMappingEntry, is_error, volume_not_found, stale_epoch, add_node, delete_volume,
  advance_epoch, commit_extent_mapping, commit_extent_mapping_batch, update_placement_map,
}
use blockyard.Metadata.Commit.{commit, commit_batch, proceed}
use blockyard.Metadata.Apply.{
  apply_request, place_all, set_usage, register, put_node, replay, create, delete, drop_mappings,
  drop_lease,
}
use blockyard.Metadata.Index.Mappings.{forget_all-fields}
use blockyard.Metadata.Index.Invariant.{IndexInv, after-rest}
use blockyard.Metadata.Index.Requests.{Safe, apply_request-Safe}
use blockyard.Metadata.Index.Lookups.{Replays, replay-invariant}
use blockyard.Metadata.LeaseLaws.Frame.{lease-frame}
use blockyard.Metadata.Leases.{cleanup_expired}
use blockyard.Metadata.CommitLaws.Outcomes.{commit-Committed}
use blockyard.Metadata.CommitLaws.Batches.{commit-error}

-- What holds of the next state, if the request does not panic.
abbrev pub Keeps : (MetadataState → Type 0) → Outcome → Type 0
Keeps P none = Unit
Keeps P (some (s, resp)) = P s

pub keeps :
    (P : MetadataState → Type 0) (o : Outcome)
    → ((s : MetadataState) (resp : MetadataResponse) → o ≡ some (s, resp) → P s)
    → Keeps P o
keeps P none h = tt
keeps P (some (s, resp)) h = h s resp refl

pub Keeps-mono :
    (P Q : MetadataState → Type 0) (o : Outcome)
    → ((s : MetadataState) → P s → Q s)
    → Keeps P o
    → Keeps Q o
Keeps-mono P Q none f h = h
Keeps-mono P Q (some (s, resp)) f h = f s h

pub Safe-Keeps :
    (P Q : MetadataState → Type 0) (o : Outcome) → Safe P o → Keeps Q o → Safe (λ s. P s × Q s) o
Safe-Keeps P Q none h k = h
Safe-Keeps P Q (some (s, resp)) h k = (h, k)

pub proceed-Keeps :
    (P : MetadataState → Type 0) (o : Outcome) (next : MetadataState → Outcome)
    → Keeps P o
    → ((s : MetadataState) → P s → Keeps P (next s))
    → Keeps P (proceed o next)
unfolding proceed
proceed-Keeps P none next h k = h
proceed-Keeps P (some (s, resp)) next h k = elim (Bool-cases (is_error resp)) [
  | inl bad ↦ rw bad h
  | inr fine ↦ rw fine (k s h)
]

module _ (to_string : ℕ → String) where
  commit-epoch :
      (r : ExtentMappingEntry) (s : MetadataState) (e : ℕ)
      → s.epoch ≡ e
      → Keeps (λ t. t.epoch ≡ e) (commit to_string r s)
  commit-epoch r s e h =
      keeps (λ t. t.epoch ≡ e) (commit to_string r s)
        (λ t resp c. elim (Bool-cases (is_error resp)) [
          | inl bad ↦
              ap (λ (u : MetadataState). u.epoch) (commit-error to_string r s t resp c bad) ∙ h
          | inr fine ↦
              let (done, shape) = commit-Committed to_string r s t resp c fine in
              let (_, same, _) =
                after-rest to_string s (to_string r.volume_id) r done.mappings done.here in
              rw done.stored (same ∙ h)
        ])

  commit_batch-epoch :
      (rs : List ExtentMappingEntry) (s : MetadataState) (e : ℕ)
      → s.epoch ≡ e
      → Keeps (λ t. t.epoch ≡ e) (commit_batch to_string rs s)
  unfolding commit_batch
  commit_batch-epoch [] s e h = h
  commit_batch-epoch (r ∷ rs) s e h =
      proceed-Keeps (λ t. t.epoch ≡ e) (commit to_string r s) (commit_batch to_string rs)
        (commit-epoch r s e h) (λ t h'. commit_batch-epoch rs t e h')

  place_all-epoch : (a : Map String (List ℕ)) (s : MetadataState) → (place_all a s).epoch ≡ s.epoch
  unfolding place_all
  place_all-epoch [] s = refl
  place_all-epoch ((key, nodes) ∷ rest) s = place_all-epoch rest _

  drop_mappings-epoch :
      (key : String) (o : Option (Map ℕ ExtentMapping)) (s : MetadataState)
      → (drop_mappings to_string key o s).epoch ≡ s.epoch
  unfolding drop_mappings
  drop_mappings-epoch key none s = refl
  drop_mappings-epoch key (some mappings) s = rw (forget_all-fields to_string (values mappings))

  request-epoch :
      (req : MetadataRequest) (s : MetadataState)
      → s.epoch < u64_mod
      → Keeps (λ t. s.epoch ≤ t.epoch) (apply_request to_string req s)
  unfolding apply_request delete create drop_lease register set_usage cleanup_expired put_node
  request-epoch (commit_extent_mapping r) s fits =
      Keeps-mono (λ t. t.epoch ≡ s.epoch) (λ t. s.epoch ≤ t.epoch) (commit to_string r s)
        (λ t h. omega arith) (commit-epoch r s s.epoch refl)
  request-epoch (commit_extent_mapping_batch rs) s fits =
      Keeps-mono (λ t. t.epoch ≡ s.epoch) (λ t. s.epoch ≤ t.epoch) (commit_batch to_string rs s)
        (λ t h. omega arith) (commit_batch-epoch rs s s.epoch refl)
  request-epoch (MetadataRequest.lease r) s fits = rw (lease-frame to_string r s) (omega arith)
  request-epoch (update_placement_map a) s fits = omega (arith, place_all-epoch a s)
  request-epoch (delete_volume v) s fits =
      let key = to_string v in
      ground (
        arith,
        drop_mappings-epoch key (get key s.extent_mappings)
            (record s { volumes = remove key s.volumes }),
      )
  request-epoch advance_epoch s fits = ground arith
  request-epoch (add_node n a) s fits = omega arith
  request-epoch req s fits = ground arith

  -- The epoch never falls, whatever the log.
  pub replay-epoch :
      (log : List MetadataRequest) (s : MetadataState)
      → IndexInv to_string s
      → Replays (λ t. IndexInv to_string t × (s.epoch ≤ t.epoch)) (replay to_string log s)
  replay-epoch log s inv =
      replay-invariant to_string (λ t. IndexInv to_string t × (s.epoch ≤ t.epoch)) step log s
        (inv, omega arith)
    where
      step :
          (req : MetadataRequest) (t : MetadataState)
          → IndexInv to_string t × (s.epoch ≤ t.epoch)
          → Safe (λ u. IndexInv to_string u × (s.epoch ≤ u.epoch)) (apply_request to_string req t)
      step req t (i, le) =
          Safe-Keeps (IndexInv to_string) (λ u. s.epoch ≤ u.epoch) (apply_request to_string req t)
            (apply_request-Safe to_string req t i)
            (Keeps-mono (λ u. t.epoch ≤ u.epoch) (λ u. s.epoch ≤ u.epoch)
              (apply_request to_string req t) (λ u h. omega arith)
              (request-epoch req t i.epoch_fits))

  refused :
      (r : ExtentMappingEntry) (s : MetadataState)
      → r.epoch < s.epoch
      → (e : MetadataError) × (commit to_string r s ≡ some (s, MetadataResponse.error e))
  unfolding commit
  refused r s old = elim (Bool-cases (contains_key (to_string r.volume_id) s.volumes)) [
    | inr absent ↦ (volume_not_found, rw absent)
    | inl there ↦
        let stale : nat_eq r.epoch s.epoch ≡ false = ground arith in
        (stale_epoch, rw (there, stale))
  ]

  -- A commit prepared for an epoch before the current one is refused, and changes nothing, also
  -- after any further log of requests.
  pub stale-commit_refused :
      (r : ExtentMappingEntry) (log : List MetadataRequest) (s s' : MetadataState)
      → IndexInv to_string s
      → r.epoch < s.epoch
      → replay to_string log s ≡ some s'
      → (e : MetadataError) × (commit to_string r s' ≡ some (s', MetadataResponse.error e))
  stale-commit_refused r log s s' inv old h =
      let (_, grown) = rw h at (replay-epoch log s inv) in refused r s' (omega arith)

  abbrev pub IsSingle : MetadataRequest → Type 0
  IsSingle (commit_extent_mapping_batch rs) = ⊥
  IsSingle req = Unit

  -- A request other than a batch that answers with an error has changed nothing.
  pub request-error :
      (req : MetadataRequest) (s s' : MetadataState) (resp : MetadataResponse)
      → IsSingle req
      → apply_request to_string req s ≡ some (s', resp)
      → is_error resp ≡ true
      → s' ≡ s
  unfolding apply_request delete create register set_usage is_error
  request-error (commit_extent_mapping r) s s' resp one h bad =
      commit-error to_string r s s' resp h bad
  request-error (commit_extent_mapping_batch rs) s s' resp one h bad = absurd one
  request-error req s s' resp one h bad = ground arith
