-- ===== src/Metadata/CommitLaws/Batches.antt =====
-- Batches of commits, and what an error leaves behind.
use blockyard.Common.{
  ℕ-eq, String-eq, ℕ, String, ◌≡◌, ◌⊎◌, refl, sym, ◌∙◌, ap, Option, none, some, List, [], ◌∷◌, ◌++◌,
  arith, Option-cases, Bool-cases, true, false, nat_eq, inl, inr,
}
use blockyard.Common.Maps.{Map, get, contains_key}
use blockyard.Metadata.State.{
  MetadataState, MetadataResponse, Outcome, ExtentMapping, ExtentMappingEntry, is_error,
}
use blockyard.Metadata.Commit.{cas_error, commit_into, commit, commit_batch, proceed}
use mathlib.Core.Path.{fun_ext}

proceed-cases :
    (o : Outcome) (next : MetadataState → Outcome) (s' : MetadataState) (resp : MetadataResponse)
    → proceed o next ≡ some (s', resp)
    → (o ≡ some (s', resp))
      ⊎ ((t : MetadataState) × (first : MetadataResponse) × (o ≡ some (t, first))
          × (is_error first ≡ false)
          × (next t ≡ some (s', resp)))
unfolding proceed
proceed-cases none next s' resp h = cc
proceed-cases (some (t, first)) next s' resp h = elim (Bool-cases (is_error first)) [
  | inl stops ↦ inl (rw stops at h)
  | inr goes ↦ inr (t, first, refl, goes, rw goes at h)
]

proceed_assoc :
    (o : Outcome) (f g : MetadataState → Outcome)
    → proceed (proceed o f) g ≡ proceed o (λ s. proceed (f s) g)
unfolding proceed
proceed_assoc none f g = refl
proceed_assoc (some (s, resp)) f g = elim (Bool-cases (is_error resp)) [
  | inl stops ↦ rw (stops, proceed, stops)
  | inr goes ↦ rw goes
]

module _ (to_string : ℕ → String) where
  commit_into-error :
      (vk : String) (r : ExtentMappingEntry) (o : Option (Map ℕ ExtentMapping))
      (s s' : MetadataState) (resp : MetadataResponse)
      → commit_into to_string vk r o s ≡ some (s', resp)
      → is_error resp ≡ true
      → s' ≡ s
  unfolding commit_into is_error
  commit_into-error vk r none s s' resp h bad = cc
  commit_into-error vk r (some mappings) s s' resp h bad =
      elim (Option-cases (cas_error r.previous_version (get r.block_range.start mappings))) [
        | inl pass ↦ absurd (ground arith)
        | inr (err, e) ↦ ground arith
      ]

  pub commit-error :
      (r : ExtentMappingEntry) (s s' : MetadataState) (resp : MetadataResponse)
      → commit to_string r s ≡ some (s', resp)
      → is_error resp ≡ true
      → s' ≡ s
  unfolding commit is_error
  commit-error r s s' resp h bad =
      elim (Bool-cases (contains_key (to_string r.volume_id) s.volumes)) [
        | inr absent ↦ ground arith
        | inl there ↦ elim (Bool-cases (nat_eq r.epoch s.epoch)) [
          | inr stale ↦ ground arith
          | inl current ↦
              commit_into-error (to_string r.volume_id) r _ s s' resp (rw (there, current) at h) bad
        ]
      ]

  -- A batch that fails: the entries before the failing one, that one, and those after it. The
  -- first are applied, as a batch of their own would apply them.
  pub record FailsAt (rs : List ExtentMappingEntry) (s s' : MetadataState) (resp : MetadataResponse)
      : Type 0 where
    pub before : List ExtentMappingEntry
    pub failing : ExtentMappingEntry
    pub later : List ExtentMappingEntry
    pub split : rs ≡ before ++ failing ∷ later
    pub applied : commit_batch to_string before s ≡ some (s', MetadataResponse.epoch s'.epoch)
    pub refused : commit to_string failing s' ≡ some (s', resp)

  -- If a batch answers with an error, then its entries up to the failing one have been applied and
  -- stay applied: the state is the one that the batch of those entries leads to, and the failing
  -- entry is refused in it with that error.
  pub commit_batch-error :
      (rs : List ExtentMappingEntry) (s s' : MetadataState) (resp : MetadataResponse)
      → commit_batch to_string rs s ≡ some (s', resp)
      → is_error resp ≡ true
      → FailsAt rs s s' resp
  unfolding commit_batch proceed is_error
  commit_batch-error [] s s' resp h bad = absurd (ground arith)
  commit_batch-error (r ∷ rs) s s' resp h bad =
      elim (proceed-cases (commit to_string r s) (commit_batch to_string rs) s' resp h) [
        | inl stops ↦
            let kept : s' ≡ s = commit-error r s s' resp stops bad in
            record {
              before = [];
              failing = r;
              later = rs;
              split = refl;
              applied = rw kept;
              refused = ap (commit to_string r) kept ∙ stops;
            }
        | inr (t, first, e, goes, h') ↦
            let rest = commit_batch-error rs t s' resp h' bad in
            record {
              before = r ∷ rest.before;
              failing = rest.failing;
              later = rest.later;
              split = ap (◌∷◌ r) rest.split;
              applied = rw (e, proceed, goes) rest.applied;
              refused = rest.refused;
            }
      ]

  -- To commit two batches one after the other, stopping at an error of the first, is to commit
  -- their concatenation.
  pub commit_batch-append :
      (rs qs : List ExtentMappingEntry) (s : MetadataState)
      → commit_batch to_string (rs ++ qs) s
        ≡ proceed (commit_batch to_string rs s) (commit_batch to_string qs)
  unfolding commit_batch proceed is_error
  commit_batch-append [] qs s = refl
  commit_batch-append (r ∷ rs) qs s =
      ap (proceed (commit to_string r s)) (fun_ext (commit_batch-append rs qs))
      ∙ sym (
          proceed_assoc (commit to_string r s) (commit_batch to_string rs)
            (commit_batch to_string qs))
