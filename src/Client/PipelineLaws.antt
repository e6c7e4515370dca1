-- ===== src/Client/PipelineLaws.antt =====
-- When a write of the client is answered as committed (crates/blockyard-ublk/src/write_pipeline.rs).
use blockyard.Common.{
  ℕ-eq, String-eq, ℕ, zero, suc, ◌≡◌, ◌≤◌, ◌+◌, ◌⊎◌, inl, inr, refl, sym, ap, arith, ◌∙◌, String,
  Option, none, some, List,
}
use mathlib.Core.Path.{subst}
use blockyard.Client.Results.{Result, ok, err}
use blockyard.Client.Cache.{MetadataCache}
use blockyard.Client.Recovery.{CommittedMapping}
use blockyard.Client.Device.{WriteRequest}
use blockyard.Client.Pipeline.{
  TaskResult, committed, WriteError, WriteResult, done, failed, no_attempt, PipelineState,
  execute_once, record_committed, found_in, earlier, or_retry, or_attempt, attempts,
  execute_with_op_id,
}
use blockyard.Client.Acks.{
  Acked, advance-watermark, committed-same, execute_once-committed, execute_once-failed,
}

module _ (to_string : ℕ → String)
    (refresh_metadata : MetadataCache → MetadataCache × Result ℕ) where
  module _ (score : ℕ → ℕ → ℕ) (volume_id extent_blocks : ℕ) (request : WriteRequest) where
    -- A retry, of a number up to `limit`, finds an earlier attempt of the operation committed in an epoch.
    abbrev pub Found : (ℕ → Result (Option CommittedMapping)) → ℕ → ℕ → Type 0
    Found lookup_operation limit e =
        (attempt : ℕ) × (m : CommittedMapping) × (suc attempt ≤ limit)
        × (lookup_operation (suc attempt) ≡ ok (some m))
        × (m.epoch ≡ e)

    -- Why a write that starts in a state is committed in an epoch.
    abbrev pub Committed :
        (ℕ → List ℕ → List TaskResult)
        → (ℕ → Result (Option CommittedMapping))
        → ℕ
        → PipelineState
        → ℕ
        → Type 0
    Committed joined lookup_operation limit st e =
        Found lookup_operation limit e
        ⊎ ((attempt : ℕ) × (attempt ≤ limit)
            × Acked to_string refresh_metadata score volume_id extent_blocks request
                (joined attempt) st e)

    record_committed-watermark :
        (m : CommittedMapping) (st : PipelineState)
        → m.epoch
          ≤ (record_committed to_string refresh_metadata volume_id request m st).shared.watermark
    unfolding record_committed
    record_committed-watermark m st = advance-watermark m.epoch st.shared

    earlier-some :
        (lookup_operation : ℕ → Result (Option CommittedMapping)) (limit attempt : ℕ)
        (m : CommittedMapping)
        → attempt ≤ limit
        → earlier lookup_operation attempt ≡ some m
        → Found lookup_operation limit m.epoch
    earlier-some lookup_operation limit zero m le h = cc
    earlier-some lookup_operation limit (suc attempt) m le h =
        go (lookup_operation (suc attempt)) refl h
      where
        go :
            (r : Result (Option CommittedMapping))
            → lookup_operation (suc attempt) ≡ r
            → found_in r ≡ some m
            → Found lookup_operation limit m.epoch
        go (ok found) is h = (attempt, m, le, is ∙ ap ok h, refl)
        go (err e) is h = cc

    module _ (joined : ℕ → List ℕ → List TaskResult)
        (lookup_operation : ℕ → Result (Option CommittedMapping)) (limit : ℕ) (st : PipelineState)
        (e : ℕ) where
      -- What a result shows, if it is that the write was committed.
      abbrev Settled : PipelineState × WriteResult → Type 0
      Settled r =
          r.1 ≡ done (committed e)
          → Committed joined lookup_operation limit st e × (e ≤ r.0.shared.watermark)

      or_retry-Settled :
          (r : PipelineState × WriteResult)
          (next : WriteError → PipelineState → PipelineState × WriteResult)
          → ((x : WriteError) → r.1 ≡ failed x → r.0 ≡ st)
          → Settled r
          → ((x : WriteError) → Settled (next x st))
          → Settled (or_retry next r)
      or_retry-Settled (st', done outcome) next stays now later = now
      or_retry-Settled (st', failed x) next stays now later =
          subst (λ (t : PipelineState). Settled (next x t)) (sym (stays x refl)) (later x)

      or_attempt-Settled :
          (o : Option CommittedMapping) (next : PipelineState × WriteResult)
          → ((m : CommittedMapping) → o ≡ some m → Found lookup_operation limit m.epoch)
          → Settled next
          → Settled (or_attempt to_string refresh_metadata volume_id request o st next)
      or_attempt-Settled none next known later = later
      or_attempt-Settled (some m) next known later = λ h.
          let same = committed-same m.epoch e h in
          (
            inl (subst (λ (x : ℕ). Found lookup_operation limit x) same (known m refl)),
            subst
                (λ (x : ℕ).
                  x
                  ≤ (record_committed to_string refresh_metadata volume_id request m
                      st).shared.watermark)
                same (record_committed-watermark m st),
          )

      attempts-Settled :
          (more attempt : ℕ) (last : WriteError)
          → attempt + more ≤ suc limit
          → Settled (
              attempts to_string refresh_metadata score joined lookup_operation volume_id
                extent_blocks request more attempt last st)
      unfolding attempts
      attempts-Settled zero attempt last few = λ h. cc
      attempts-Settled (suc more) attempt last few =
          let once =
            execute_once to_string refresh_metadata score (joined attempt) volume_id extent_blocks
              request st in
          let again =
            attempts to_string refresh_metadata score joined lookup_operation volume_id
              extent_blocks request more (suc attempt) in
          or_attempt-Settled (earlier lookup_operation attempt) (or_retry again once)
            (λ (m : CommittedMapping). earlier-some lookup_operation limit attempt m (omega arith))
            (or_retry-Settled once again
              (execute_once-failed to_string refresh_metadata score volume_id extent_blocks request
                (joined attempt) st)
              (λ h.
                let (acked, seen) =
                  execute_once-committed to_string refresh_metadata score volume_id extent_blocks
                    request (joined attempt) e st h in
                (inr (attempt, omega arith, acked), seen))
              (λ (x : WriteError). attempts-Settled more (suc attempt) x (omega arith)))

    -- A write that is answered as committed in an epoch was, in one of its retries, found committed in
    -- that epoch, or it started while the cache was in that epoch and, in one of its attempts, as many
    -- of the nodes that the volume's policy selects acknowledged it as the policy requires, and none
    -- with a stale epoch; and the watermark has reached that epoch.
    pub execute_with_op_id-committed :
        (joined : ℕ → List ℕ → List TaskResult)
        (lookup_operation : ℕ → Result (Option CommittedMapping)) (max_retries : ℕ)
        (st : PipelineState) (e : ℕ)
        → (execute_with_op_id to_string refresh_metadata score joined lookup_operation max_retries
            volume_id extent_blocks request st).1
          ≡ done (committed e)
        → Committed joined lookup_operation max_retries st e
          × (e
              ≤ (execute_with_op_id to_string refresh_metadata score joined lookup_operation
                  max_retries volume_id extent_blocks request st).0.shared.watermark)
    unfolding execute_with_op_id
    execute_with_op_id-committed joined lookup_operation max_retries st e h =
        attempts-Settled joined lookup_operation max_retries st e (suc max_retries) 0 no_attempt
          (omega arith) h
