-- ===== src/Background/Copies.antt =====
-- What a pass over the repair queue does to the disks
-- (crates/blockyard-storage/src/background/repair.rs).
use blockyard.Common.{
  ◌≢◌, ℕ, zero, suc, ◌≡◌, ◌<◌, refl, sym, ap, ◌∙◌, Bool, true, false, Option, none, some, List, [],
  ◌∷◌, ◌++◌, ltb, length, All, arith,
}
use mathlib.Core.List.{append-nil, append_assoc}
use mathlib.Core.Path.{subst}
use blockyard.Background.Repair.{
  RepairRequest, RepairOutcome, RepairWorker, RepairIo, queue_len, repair, repair_replication,
  process_next, process_all, on_write, on_source,
}

module _ {S : Type 0} (io : RepairIo S) where
  -- The requests of a list repaired one after the other.
  abbrev pub repair_each : List RepairRequest → S → S × List RepairOutcome
  repair_each [] s = (s, [])
  repair_each (r ∷ rs) s =
      let (s1, outcome) = repair io r r.repair_type s in
      let (s2, outcomes) = repair_each rs s1 in (s2, outcome ∷ outcomes)

  module _ (grants : RepairRequest → Bool) where
    abbrev Granted : RepairRequest → Type 0
    Granted r = grants r ≡ true

    process_each :
        (fuel : ℕ) (queue : List RepairRequest) (completed : List RepairOutcome) (s : S)
        → All Granted queue
        → length queue < fuel
        → process_all io grants fuel (record { queue = queue; completed = completed }, s)
          ≡ some (
            (
              record { queue = []; completed = completed ++ (repair_each queue s).1 },
              (repair_each queue s).0,
            ),
            (repair_each queue s).1,
          )
    unfolding process_all process_next queue_len
    process_each zero queue completed s granted enough = absurd (omega arith)
    process_each (suc fuel) [] completed s granted enough =
        ap (λ (done : List RepairOutcome). some ((record { queue = []; completed = done }, s), []))
          (sym (append-nil completed))
    process_each (suc fuel) (r ∷ rs) completed s (now, granted) enough =
        let (s1, outcome) = repair io r r.repair_type s in
        let later = process_each fuel rs (completed ++ (outcome ∷ [])) s1 granted (omega arith) in
        let waiting : ltb 0 (queue_len (record { queue = r ∷ rs; completed = completed })) ≡ true =
          ground arith in
        rw (waiting, now, later, append_assoc completed (outcome ∷ []) (repair_each rs s1).1) refl

    -- When the rate limiter grants each request of the queue its tokens, and nobody else uses the worker
    -- meanwhile, then `process_all` ends after as many rounds as there are requests: every request has
    -- been repaired, in the queue's order, each outcome is returned and added to the completed ones, and
    -- the queue is empty.
    pub process_all-repairs :
        (fuel : ℕ) (w : RepairWorker) (s : S)
        → All (λ (r : RepairRequest). grants r ≡ true) w.queue
        → length w.queue < fuel
        → process_all io grants fuel (w, s)
          ≡ some (
            (
              record { queue = []; completed = w.completed ++ (repair_each w.queue s).1 },
              (repair_each w.queue s).0,
            ),
            (repair_each w.queue s).1,
          )
    process_all-repairs fuel w s granted enough =
        process_each fuel w.queue w.completed s granted enough

  -- What the worker relies on: a write that succeeds is read back, and no write changes another disk.
  abbrev pub ReadsBack : Type 0
  ReadsBack =
      (disk extent_id version : ℕ) (bytes : List ℕ) (s : S)
      → (io.write_extent disk extent_id version bytes s).1 ≡ true
      → io.read_extent (io.write_extent disk extent_id version bytes s).0 disk extent_id version
        ≡ some bytes

  abbrev pub KeepsOthers : Type 0
  KeepsOthers =
      (disk other extent_id version other_id other_version : ℕ) (bytes : List ℕ) (s : S)
      → other ≢ disk
      → io.read_extent (io.write_extent disk extent_id version bytes s).0 other other_id
          other_version
        ≡ io.read_extent s other other_id other_version

  module _ (request : RepairRequest) where
    abbrev pub Reads : S → ℕ → List ℕ → Type 0
    Reads s disk bytes = io.read_extent s disk request.extent_id request.version ≡ some bytes

    -- One of some disks holds the extent at first, and the target holds the same data at the end.
    abbrev pub CopiedFrom : List ℕ → S → S → Type 0
    CopiedFrom sources s s' =
        (before : List ℕ) × (source : ℕ) × (after : List ℕ) × (bytes : List ℕ) × (sources
          ≡ before ++ (source ∷ after))
        × Reads s source bytes
        × Reads s' request.target_disk_id bytes

    later-CopiedFrom :
        (disk : ℕ) (sources : List ℕ) (s s' : S)
        → CopiedFrom sources s s'
        → CopiedFrom (disk ∷ sources) s s'
    later-CopiedFrom disk sources s s' (before, source, after, bytes, is, held, holds) =
        (disk ∷ before, source, after, bytes, ap (λ (ds : List ℕ). disk ∷ ds) is, held, holds)

    -- The disks other than the target read as they did.
    abbrev pub OthersAs : S → S → Type 0
    OthersAs s s' =
        (disk extent_id version : ℕ)
        → disk ≢ request.target_disk_id
        → io.read_extent s' disk extent_id version ≡ io.read_extent s disk extent_id version

    -- What one request does, if it succeeds and in any case.
    abbrev Repaired : List ℕ → S → S × RepairOutcome → Type 0
    Repaired sources s r = OthersAs s r.0 × (r.1.success ≡ true → CopiedFrom sources s r.0)

    written : S → List ℕ → S × Bool
    written t bytes =
        io.write_extent request.target_disk_id request.extent_id request.version bytes t

    module _ (reads_back : ReadsBack) (keeps_others : KeepsOthers) (s : S) where
      after_write : (t : S) (bytes : List ℕ) → OthersAs s t → OthersAs s (written t bytes).0
      unfolding written
      after_write t bytes same = λ disk extent_id version other.
          keeps_others request.target_disk_id disk request.extent_id request.version extent_id
            version bytes t other
          ∙ same disk extent_id version other

      on_write-Repaired :
          (next : S → S × RepairOutcome) (source : ℕ) (sources : List ℕ) (bytes : List ℕ) (t : S)
          → OthersAs s t
          → Reads s source bytes
          → ((t' : S) → OthersAs s t' → Repaired sources s (next t'))
          → (r : S × Bool) → written t bytes ≡ r
          → Repaired (source ∷ sources) s (on_write io request next r)
      unfolding written
      on_write-Repaired next source sources bytes t same held later (t', true) is =
          let kept = subst (λ (r : S × Bool). OthersAs s r.0) is (after_write t bytes same) in
          let holds =
            subst (λ (r : S × Bool). r.1 ≡ true → Reads r.0 request.target_disk_id bytes) is
              (reads_back request.target_disk_id request.extent_id request.version bytes t) in
          (kept, λ _. ([], source, sources, bytes, refl, held, holds refl))
      on_write-Repaired next source sources bytes t same held later (t', false) is =
          let kept = subst (λ (r : S × Bool). OthersAs s r.0) is (after_write t bytes same) in
          let (others, copied) = later t' kept in
          (others, λ h. later-CopiedFrom source sources s (next t').0 (copied h))

      on_source-Repaired :
          (next : S → S × RepairOutcome) (source : ℕ) (sources : List ℕ) (t : S)
          → OthersAs s t
          → source ≢ request.target_disk_id
          → ((t' : S) → OthersAs s t' → Repaired sources s (next t'))
          → (o : Option (List ℕ)) → io.read_extent t source request.extent_id request.version ≡ o
          → Repaired (source ∷ sources) s (on_source io request next o t)
      unfolding written
      on_source-Repaired next source sources t same other later none is =
          let (others, copied) = later t same in
          (others, λ h. later-CopiedFrom source sources s (next t).0 (copied h))
      on_source-Repaired next source sources t same other later (some bytes) is =
          on_write-Repaired next source sources bytes t same
            (sym (same source request.extent_id request.version other) ∙ is) later (written t bytes)
            refl

      from_each :
          (sources : List ℕ) (t : S)
          → All (λ (disk : ℕ). disk ≢ request.target_disk_id) sources
          → OthersAs s t
          → Repaired sources s (repair_replication io request sources t)
      unfolding repair_replication
      from_each [] t others same = (same, λ h. cc)
      from_each (source ∷ sources) t (other, others) same =
          on_source-Repaired (repair_replication io request sources) source sources t same other
            (λ t' same'. from_each sources t' others same')
            (io.read_extent t source request.extent_id request.version) refl

  -- A repair from replicas on other disks than the target that succeeds, where a successful write is
  -- read back and no write changes another disk, leaves on the target what one of the sources held.
  pub repair_replication-CopiedFrom :
      ReadsBack
      → KeepsOthers
      → (request : RepairRequest) (sources : List ℕ) (s : S)
      → All (λ (disk : ℕ). disk ≢ request.target_disk_id) sources
      → (repair_replication io request sources s).1.success ≡ true
      → CopiedFrom request sources s (repair_replication io request sources s).0
  repair_replication-CopiedFrom reads_back keeps_others request sources s others succeeds =
      (from_each request reads_back keeps_others s sources s others
          (λ disk extent_id version other. refl)).1
        succeeds

  -- A repair from replicas on other disks than the target changes no disk but the target.
  pub repair_replication-others :
      ReadsBack
      → KeepsOthers
      → (request : RepairRequest) (sources : List ℕ) (s : S)
      → All (λ (disk : ℕ). disk ≢ request.target_disk_id) sources
      → (disk extent_id version : ℕ) → disk ≢ request.target_disk_id
      → io.read_extent (repair_replication io request sources s).0 disk extent_id version
        ≡ io.read_extent s disk extent_id version
  repair_replication-others reads_back keeps_others request sources s others disk extent_id version
        other =
      (from_each request reads_back keeps_others s sources s others
          (λ disk extent_id version other. refl)).0
        disk extent_id version other
