-- ===== src/Client/Acks.antt =====
-- The acks that a write of the client waits for (crates/blockyard-ublk/src/write_pipeline.rs).
use blockyard.Common.{
  ℕ-eq, String-eq, ℕ, ◌≡◌, ◌≤◌, inl, inr, refl, sym, ap, ◌∙◌, ◌/◌, max, String, Bool, true, false,
  Bool-cases, Option, none, some, List, [], ◌∷◌, if◌then◌else◌, ltb, length, keep, any, arith,
}
use mathlib.Core.Path.{subst}
use blockyard.Client.Results.{Result}
use blockyard.Client.Watermark.{advance_to}
use blockyard.Client.Cache.{MetadataCache, CachedVolumeInfo, get_volume}
use blockyard.Client.Recovery.{Shared, advance}
use blockyard.Client.Device.{WriteRequest}
use blockyard.Client.Pipeline.{
  WriteAck, TaskResult, WriteOutcome, committed, WriteError, WriteResult, done, failed, paused,
  PipelineState, select_nodes, total_nodes, required_acks, list_nodes, collect, is_stale, succeeded,
  on_acks, on_nodes, on_volume, execute_once,
}

failed-done : (o : WriteOutcome) → failed paused ≡ done o → ⊥
failed-done o h = cc

pub committed-same : (a b : ℕ) → done (committed a) ≡ done (committed b) → a ≡ b
committed-same a b h = cc

pub advance-watermark : (epoch : ℕ) (s : Shared) → epoch ≤ (advance epoch s).watermark
unfolding advance advance_to
advance-watermark epoch s = ground arith

module _ (to_string : ℕ → String)
    (refresh_metadata : MetadataCache → MetadataCache × Result ℕ) where
  on_acks-committed :
      (required epoch e : ℕ) (acks : List WriteAck) (st : PipelineState)
      → (on_acks to_string refresh_metadata required epoch acks st).1 ≡ done (committed e)
      → (e ≡ epoch)
        × (required ≤ length (keep succeeded acks))
        × (any is_stale acks ≡ false)
        × (e ≤ (on_acks to_string refresh_metadata required epoch acks st).0.shared.watermark)
  unfolding on_acks
  on_acks-committed required epoch e acks st h = elim (Bool-cases (any is_stale acks)) [
    | inl late ↦ cc
    | inr timely ↦ elim (Bool-cases (ltb (length (keep succeeded acks)) required)) [
      | inl few ↦ cc
      | inr enough ↦
          let h' : done (committed epoch) ≡ done (committed e) = rw (timely, enough) at h in
          let same : e ≡ epoch = sym (committed-same epoch e h') in
          let quorum : required ≤ length (keep succeeded acks) = ground arith in
          rw (timely, enough, same) (refl, quorum, refl, advance-watermark epoch st.shared)
    ]
  ]

  module _ (score : ℕ → ℕ → ℕ) (volume_id extent_blocks : ℕ) (request : WriteRequest) where
    -- The acks of the nodes that a write to an extent is sent to.
    abbrev pub acks_of :
        (List ℕ → List TaskResult) → CachedVolumeInfo → PipelineState → List WriteAck
    acks_of joined v st = collect (
        joined (
          select_nodes (score (request.block_range.start / max extent_blocks 1))
            (list_nodes st.shared.cache) (total_nodes v.protection)))

    -- In a state of the client, in the epoch of its cache, no ack of a transmission was stale and as
    -- many as the volume's policy requires were successful.
    abbrev pub Acked : (List ℕ → List TaskResult) → PipelineState → ℕ → Type 0
    Acked joined st e =
        (v : CachedVolumeInfo) × (get_volume to_string volume_id st.shared.cache ≡ some v)
        × (e ≡ st.shared.cache.epoch)
        × (required_acks v.protection ≤ length (keep succeeded (acks_of joined v st)))
        × (any is_stale (acks_of joined v st) ≡ false)

    on_nodes-committed :
        (nodes : List ℕ) (joined : List ℕ → List TaskResult) (required epoch e : ℕ)
        (st : PipelineState)
        → (on_nodes to_string refresh_metadata nodes joined required epoch st).1
          ≡ done (committed e)
        → (e ≡ epoch)
          × (required ≤ length (keep succeeded (collect (joined nodes))))
          × (any is_stale (collect (joined nodes)) ≡ false)
          × (e
              ≤ (on_nodes to_string refresh_metadata nodes joined required epoch
                  st).0.shared.watermark)
    unfolding on_nodes
    on_nodes-committed [] joined required epoch e st h = cc
    on_nodes-committed (n ∷ ns) joined required epoch e st h =
        on_acks-committed required epoch e (collect (joined (n ∷ ns))) st h

    on_volume-committed :
        (o : Option CachedVolumeInfo) (joined : List ℕ → List TaskResult) (e : ℕ)
        (st : PipelineState)
        → get_volume to_string volume_id st.shared.cache ≡ o
        → (on_volume to_string refresh_metadata o score joined
            (request.block_range.start / max extent_blocks 1)
            st).1
          ≡ done (committed e)
        → Acked joined st e
          × (e
              ≤ (on_volume to_string refresh_metadata o score joined
                  (request.block_range.start / max extent_blocks 1)
                  st).0.shared.watermark)
    unfolding on_volume
    on_volume-committed none joined e st is h = cc
    on_volume-committed (some v) joined e st is h =
        let nodes =
          select_nodes (score (request.block_range.start / max extent_blocks 1))
            (list_nodes st.shared.cache) (total_nodes v.protection) in
        let (same, enough, timely, seen) =
          on_nodes-committed nodes joined (required_acks v.protection) st.shared.cache.epoch e st
            h in
        ((v, is, same, enough, timely), seen)

    execute_once-runs :
        (joined : List ℕ → List TaskResult) (st : PipelineState)
        → st.handler.paused ≡ false
        → execute_once to_string refresh_metadata score joined volume_id extent_blocks request st
          ≡ on_volume to_string refresh_metadata
              (get_volume to_string volume_id st.shared.cache)
              score
              joined
              (request.block_range.start / max extent_blocks 1)
              st
    unfolding execute_once
    execute_once-runs joined st runs =
        let other =
          on_volume to_string refresh_metadata (get_volume to_string volume_id st.shared.cache)
            score joined (request.block_range.start / max extent_blocks 1) st in
        ap (λ (b : Bool). if b then (st, failed paused) else other) runs

    execute_once-paused :
        (joined : List ℕ → List TaskResult) (st : PipelineState)
        → st.handler.paused ≡ true
        → (execute_once to_string refresh_metadata score joined volume_id extent_blocks request
            st).1
          ≡ failed paused
    unfolding execute_once
    execute_once-paused joined st waits =
        let other =
          on_volume to_string refresh_metadata (get_volume to_string volume_id st.shared.cache)
            score joined (request.block_range.start / max extent_blocks 1) st in
        ap (λ (b : Bool). (if b then (st, failed paused) else other).1) waits

    pub execute_once-committed :
        (joined : List ℕ → List TaskResult) (e : ℕ) (st : PipelineState)
        → (execute_once to_string refresh_metadata score joined volume_id extent_blocks request
            st).1
          ≡ done (committed e)
        → Acked joined st e
          × (e
              ≤ (execute_once to_string refresh_metadata score joined volume_id extent_blocks
                  request st).0.shared.watermark)
    execute_once-committed joined e st h = elim (Bool-cases st.handler.paused) [
      | inl waits ↦
          absurd (failed-done (committed e) (sym (execute_once-paused joined st waits) ∙ h))
      | inr runs ↦
          let o = get_volume to_string volume_id st.shared.cache in
          let same = execute_once-runs joined st runs in
          let (acked, seen) =
            on_volume-committed o joined e st refl
              (subst (λ (r : PipelineState × WriteResult). r.1 ≡ done (committed e)) same h) in
          (
            acked,
            subst (λ (r : PipelineState × WriteResult). e ≤ r.0.shared.watermark) (sym same) seen,
          )
    ]

    -- What leaves the client's state as it is, if it ends in an error.
    abbrev Stays : PipelineState → PipelineState × WriteResult → Type 0
    Stays st r = (x : WriteError) → r.1 ≡ failed x → r.0 ≡ st

    on_acks-Stays :
        (required epoch : ℕ) (acks : List WriteAck) (st : PipelineState)
        → Stays st (on_acks to_string refresh_metadata required epoch acks st)
    unfolding on_acks
    on_acks-Stays required epoch acks st x h = elim (Bool-cases (any is_stale acks)) [
      | inl late ↦ cc
      | inr timely ↦ elim (Bool-cases (ltb (length (keep succeeded acks)) required)) [
        | inl few ↦ cc
        | inr enough ↦ cc
      ]
    ]

    on_nodes-Stays :
        (nodes : List ℕ) (joined : List ℕ → List TaskResult) (required epoch : ℕ)
        (st : PipelineState)
        → Stays st (on_nodes to_string refresh_metadata nodes joined required epoch st)
    unfolding on_nodes
    on_nodes-Stays [] joined required epoch st x h = refl
    on_nodes-Stays (n ∷ ns) joined required epoch st x h =
        on_acks-Stays required epoch (collect (joined (n ∷ ns))) st x h

    on_volume-Stays :
        (o : Option CachedVolumeInfo) (joined : List ℕ → List TaskResult) (extent_num : ℕ)
        (st : PipelineState)
        → Stays st (on_volume to_string refresh_metadata o score joined extent_num st)
    unfolding on_volume
    on_volume-Stays none joined extent_num st x h = refl
    on_volume-Stays (some v) joined extent_num st x h =
        on_nodes-Stays
          (select_nodes (score extent_num) (list_nodes st.shared.cache) (total_nodes v.protection))
          joined (required_acks v.protection) st.shared.cache.epoch st x h

    -- An attempt that ends in an error leaves the client's state as it was.
    pub execute_once-failed :
        (joined : List ℕ → List TaskResult) (st : PipelineState) (x : WriteError)
        → (execute_once to_string refresh_metadata score joined volume_id extent_blocks request
            st).1
          ≡ failed x
        → (execute_once to_string refresh_metadata score joined volume_id extent_blocks request
            st).0
          ≡ st
    unfolding execute_once
    execute_once-failed joined st x h = elim (Bool-cases st.handler.paused) [
      | inl waits ↦ rw waits refl
      | inr runs ↦
          let o = get_volume to_string volume_id st.shared.cache in
          let same = execute_once-runs joined st runs in
          let num = request.block_range.start / max extent_blocks 1 in
          subst (λ (r : PipelineState × WriteResult). r.0 ≡ st) (sym same)
            (on_volume-Stays o joined num st x
              (subst (λ (r : PipelineState × WriteResult). r.1 ≡ failed x) same h))
    ]
