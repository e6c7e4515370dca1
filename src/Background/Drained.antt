-- ===== src/Background/Drained.antt =====
-- When a disk counts as drained (crates/blockyard-storage/src/background/drain.rs).
use blockyard.Common.{
  ℕ, suc, ◌≡◌, ◌≤◌, ◌+◌, ◌↔◌, refl, true, false, Bool-cases, inl, inr, Option-cases, some, List, [],
  ◌∷◌, length, arith,
}
use blockyard.Background.Repair.{RepairWorker}
use blockyard.Background.Drain.{
  DrainExtentEntry, DrainProgress, DrainSurroundings, relocate, drain_loop, finish_drain,
  drain_disk,
}

module _ (env : DrainSurroundings) where
  -- Entry `index` and those after it are each met while the disk is draining and given a target.
  abbrev pub Targeted : ℕ → List DrainExtentEntry → Type 0
  Targeted index [] = Unit
  Targeted index (entry ∷ rest) =
      ((target : ℕ) × (env.is_draining index ≡ true) × (env.select_target_disk index ≡ some target))
      × Targeted (suc index) rest

  -- What a loop over some entries comes to.
  abbrev Looped : ℕ → List DrainExtentEntry → DrainProgress → DrainProgress → Type 0
  Looped index entries p p' =
      (p'.relocated ≤ p.relocated + length entries)
      × (p'.total_extents ≡ p.total_extents)
      × (p'.complete ≡ p.complete)
      × (((p'.relocated ≡ p.relocated + length entries) × (p'.failed ≡ p.failed))
          ↔ Targeted index entries)

  loop-Looped :
      ((index : ℕ) → env.grants index ≡ true)
      → (index : ℕ) (entries : List DrainExtentEntry) (w : RepairWorker) (p : DrainProgress)
      → (r : RepairWorker × DrainProgress) × (drain_loop env index entries (w, p) ≡ some r)
        × Looped index entries p r.1
  unfolding drain_loop relocate
  loop-Looped granted index [] w p =
      ((w, p), refl, (omega arith, refl, refl, (λ h. tt, λ h. (omega arith, refl))))
  loop-Looped granted index (entry ∷ rest) w p = elim (Bool-cases (env.is_draining index)) [
    | inr e ↦ (
      (w, p),
      rw e refl,
      (omega arith, refl, refl, (λ h. absurd (omega (arith, h.0)), λ h. cc (e, h.0.1))),
    )
    | inl e ↦ elim (Option-cases (env.select_target_disk index)) [
      | inl f ↦
          let (r, is, (few, total, undone, iff)) =
            loop-Looped granted (suc index) rest (env.during_wait index w)
              (record p { failed = suc p.failed }) in
          (
            r,
            rw (e, granted index, f) is,
            (omega arith, total, undone, (λ h. absurd (omega (arith, h.0)), λ h. cc (f, h.0.2))),
          )
      | inr (target, f) ↦
          let (r, is, (few, total, undone, iff)) =
            loop-Looped granted (suc index) rest
              (relocate env index entry (some target) (env.during_wait index w, p)).0
              (record p { relocated = suc p.relocated }) in
          (
            r,
            rw (e, granted index, f) is,
            (
              omega arith,
              total,
              undone,
              (
                λ (all, sound). ((target, e, f), iff.0 (omega arith, sound)),
                λ (here, later). let (all, sound) = iff.1 later in (omega arith, sound),
              ),
            ),
          )
    ]
  ]

  finish_drain-complete :
      (p : DrainProgress)
      → p.complete ≡ false
      → ((finish_drain env p).complete ≡ true)
        ↔ ((p.relocated ≡ p.total_extents) × (p.failed ≡ 0) × (env.transition_to_removed ≡ true))
  unfolding finish_drain
  finish_drain-complete p undone = (λ h. ground arith, λ h. ground arith)

  -- While the rate limiter grants its tokens, a drain ends; and whatever the repair worker does
  -- meanwhile with the requests (even if no repair has been completed, or every repair has failed), it
  -- counts as complete just when every extent of the disk was met while the disk was draining and was
  -- given a target, and the transition to removed succeeds.
  pub drain_disk-complete :
      (extents : List DrainExtentEntry) (disk_id : ℕ) (w : RepairWorker)
      → ((index : ℕ) → env.grants index ≡ true)
      → (r : RepairWorker × DrainProgress) × (drain_disk env extents disk_id w ≡ some r)
        × ((r.1.complete ≡ true) ↔ (Targeted 0 extents × (env.transition_to_removed ≡ true)))
  unfolding drain_disk
  drain_disk-complete extents disk_id w granted =
      let start : DrainProgress = record {
        disk_id = disk_id;
        total_extents = length extents;
        relocated = 0;
        failed = 0;
        complete = false;
      } in
      let (r, is, (few, total, undone, iff)) = loop-Looped granted 0 extents w start in
      let (forth, back) = finish_drain-complete r.1 undone in
      (
        (r.0, finish_drain env r.1),
        rw is refl,
        (
          λ h. let (all, sound, went) = forth h in (iff.0 (omega arith, sound), went),
          λ (targeted, went). let (all, sound) = iff.1 targeted in back (omega arith, sound, went),
        ),
      )
