-- ===== src/Metadata/CommitLaws/Outcomes.antt =====
-- When a commit is accepted, and what a refusal leaves.
use blockyard.Common.{
  ℕ-eq, String-eq, ℕ, String, ◌≡◌, ◌≢◌, ◌↔◌, ◌⊎◌, refl, Option, none, some, arith, Option-cases,
  Bool-cases, Bool, true, false, not, nat_eq, nat_eq_iff, inl, inr,
}
use blockyard.Common.Maps.{Map, get, contains_key}
use blockyard.Metadata.State.{
  MetadataState, MetadataResponse, Outcome, ExtentMapping, ExtentMappingEntry, mapping_in,
  mapping_at, is_error,
}
use blockyard.Metadata.Commit.{cas_error, forget, store_mapping, commit_into, commit}
use blockyard.Metadata.Index.Invariant.{IndexInv}

-- The version that compare-and-swap sees at a location: 0 where there is no mapping.
abbrev pub current_version : Option ExtentMapping → ℕ
current_version none = 0
current_version (some m) = m.extent_version

abbrev pub is_accepted : Outcome → Bool
is_accepted none = false
is_accepted (some (s, resp)) = not (is_error resp)

pub cas_error-none_iff :
    (prev : Option ℕ) (existing : Option ExtentMapping)
    → (cas_error prev existing ≡ none) ↔ ((prev ≡ none) ⊎ (prev ≡ some (current_version existing)))
unfolding cas_error
cas_error-none_iff none existing = (λ _. inl refl, λ _. refl)
cas_error-none_iff (some p) none = ground arith
cas_error-none_iff (some p) (some m) = ground arith

module _ (to_string : ℕ → String) where
  -- The conditions of the protocol, independent of the order in which the code tests them.
  pub record Accepts (r : ExtentMappingEntry) (s : MetadataState) : Type 0 where
    pub volume : contains_key (to_string r.volume_id) s.volumes ≡ true
    pub current : r.epoch ≡ s.epoch
    pub unchanged :
        (r.previous_version ≡ none)
        ⊎ (r.previous_version
            ≡ some (current_version (mapping_at s (to_string r.volume_id) r.block_range.start)))

  -- What a commit that is not refused has done.
  pub record Committed (r : ExtentMappingEntry) (s s' : MetadataState) : Type 0 where
    pub mappings : Map ℕ ExtentMapping
    pub here : get (to_string r.volume_id) s.extent_mappings ≡ some mappings
    pub stored :
        s'
        ≡ store_mapping to_string
            (to_string r.volume_id)
            r
            mappings
            (forget to_string (get r.block_range.start mappings) s)
    pub accepts : Accepts r s

  commit_into-Committed :
      (r : ExtentMappingEntry) (o : Option (Map ℕ ExtentMapping)) (s s' : MetadataState)
      (resp : MetadataResponse)
      → get (to_string r.volume_id) s.extent_mappings ≡ o
      → contains_key (to_string r.volume_id) s.volumes ≡ true
      → r.epoch ≡ s.epoch
      → commit_into to_string (to_string r.volume_id) r o s ≡ some (s', resp)
      → is_error resp ≡ false
      → Committed r s s' × (resp ≡ MetadataResponse.epoch s.epoch)
  unfolding commit_into mapping_in is_error
  commit_into-Committed r none s s' resp e v c h fine = cc
  commit_into-Committed r (some mappings) s s' resp e v c h fine =
      elim (Option-cases (cas_error r.previous_version (get r.block_range.start mappings))) [
        | inl pass ↦ (
          record {
            mappings = mappings;
            here = e;
            stored = ground arith;
            accepts = record {
              volume = v;
              current = c;
              unchanged =
                  rw (e, mapping_in)
                    ((cas_error-none_iff r.previous_version (get r.block_range.start mappings)).0
                      pass);
            };
          },
          ground arith,
        )
        | inr (err, bad) ↦ absurd (ground arith)
      ]

  pub commit-Committed :
      (r : ExtentMappingEntry) (s s' : MetadataState) (resp : MetadataResponse)
      → commit to_string r s ≡ some (s', resp)
      → is_error resp ≡ false
      → Committed r s s' × (resp ≡ MetadataResponse.epoch s.epoch)
  unfolding commit is_error
  commit-Committed r s s' resp h fine =
      elim (Bool-cases (contains_key (to_string r.volume_id) s.volumes)) [
        | inr absent ↦ absurd (ground arith)
        | inl there ↦ elim (Bool-cases (nat_eq r.epoch s.epoch)) [
          | inr stale ↦ absurd (ground arith)
          | inl current ↦
              commit_into-Committed r _ s s' resp refl there (ground arith)
                (rw (there, current) at h) fine
        ]
      ]

  accepted-at :
      (r : ExtentMappingEntry) (s : MetadataState) (o : Option (Map ℕ ExtentMapping))
      → get (to_string r.volume_id) s.extent_mappings ≡ o
      → o ≢ none
      → Accepts r s
      → is_accepted (commit_into to_string (to_string r.volume_id) r o s) ≡ true
  unfolding commit_into mapping_in is_error
  accepted-at r s none e there a = absurd (there refl)
  accepted-at r s (some mappings) e there a =
      let pass : cas_error r.previous_version (get r.block_range.start mappings) ≡ none =
        (cas_error-none_iff r.previous_version (get r.block_range.start mappings)).1
          (rw (e, mapping_in) at a.unchanged) in
      rw (pass, commit_into)

  -- In a state that satisfies the invariant, a commit is accepted exactly when the volume exists,
  -- the epoch is the current one, and the previous version, if one is given, is that of the
  -- mapping at the block (0 where there is none).
  pub commit-accepted_iff :
      (r : ExtentMappingEntry) (s : MetadataState)
      → IndexInv to_string s
      → (is_accepted (commit to_string r s) ≡ true) ↔ Accepts r s
  unfolding commit
  commit-accepted_iff r s inv = (accepted→, →accepted)
    where
      outcome : (o : Outcome) → commit to_string r s ≡ o → is_accepted o ≡ true → Accepts r s
      outcome none e h = cc
      outcome (some (s', resp)) e h =
          let (done, shape) = commit-Committed r s s' resp e (ground arith) in done.accepts

      accepted→ : is_accepted (commit to_string r s) ≡ true → Accepts r s
      accepted→ h = outcome (commit to_string r s) refl h

      →accepted : Accepts r s → is_accepted (commit to_string r s) ≡ true
      →accepted a =
          rw (a.volume, (nat_eq_iff r.epoch s.epoch).1 a.current)
            (accepted-at r s _ refl (ground (arith, inv.mapped (to_string r.volume_id), a.volume))
              a)
