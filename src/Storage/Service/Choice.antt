-- ===== src/Storage/Service/Choice.antt =====
-- The disk that a write goes to (crates/blockyard-storage/src/service.rs, `select_write_disk`).
use blockyard.Common.{
  ℕ-eq, ℕ, ◌≡◌, ap, refl, inl, inr, Bool, true, false, Bool-cases, Option, none, some, List, [],
  ◌∷◌,
}
use blockyard.Common.Maps.{get}
use mathlib.Core.Path.{subst}
use blockyard.DiskState.{
  DiskState, healthy, suspect, degraded, draining, failed, removed, allows_allocation, allows_reads,
}
use blockyard.Storage.Disks.{
  ManagedDisk, DiskInventory, disk_allocates, allocates_of, reads_of, regions_of,
  inventory_allocates, inventory_reads, has_bad_regions,
}
use blockyard.Storage.Service.Disk.{
  unwrap_or, preferred_disk, preferred_allocates, candidate, may_be_candidate, candidates, chosen,
  or_keep, select_write_disk,
}

-- A disk that takes new extents and has no bad region.
abbrev pub Eligible : DiskInventory → ℕ → Type 0
Eligible inv d = (inventory_allocates d inv ≡ some true) × (has_bad_regions d inv ≡ some false)

abbrev EligibleIf : DiskInventory → Option ℕ → Type 0
EligibleIf inv none = Unit
EligibleIf inv (some d) = Eligible inv d

or_keep-EligibleIf :
    (inv : DiskInventory) (o : Option ℕ) (d : ℕ)
    → EligibleIf inv o
    → Eligible inv d
    → EligibleIf inv (or_keep o d)
or_keep-EligibleIf inv none d old new = new
or_keep-EligibleIf inv (some e) d old new = old

candidate-EligibleIf :
    (inv : DiskInventory) (o : Option ManagedDisk) (d : ℕ) (h u : Option ℕ)
    → EligibleIf inv h
    → EligibleIf inv u
    → Eligible inv d
    → EligibleIf inv (may_be_candidate o d (h, u)).0
      × EligibleIf inv (may_be_candidate o d (h, u)).1
candidate-EligibleIf inv none d h u eh eu new = (eh, eu)
candidate-EligibleIf inv (some disk) d h u eh eu new = go disk.state
  where
    go :
        (s : DiskState)
        → EligibleIf inv (candidate s d (h, u)).0 × EligibleIf inv (candidate s d (h, u)).1
    go healthy = (or_keep-EligibleIf inv h d eh new, eu)
    go suspect = (eh, or_keep-EligibleIf inv u d eu new)
    go degraded = (eh, eu)
    go draining = (eh, eu)
    go failed = (eh, eu)
    go removed = (eh, eu)

unwrap_or-false : (o : Option Bool) → unwrap_or false o ≡ true → o ≡ some true
unwrap_or-false none h = cc
unwrap_or-false (some b) h = cc

unwrap_or-true : (o : Option Bool) → unwrap_or true o ≡ false → o ≡ some false
unwrap_or-true none h = cc
unwrap_or-true (some b) h = cc

candidates-EligibleIf :
    (inv : DiskInventory) (disks : List (ℕ × ManagedDisk)) (h u : Option ℕ)
    → EligibleIf inv h
    → EligibleIf inv u
    → EligibleIf inv (candidates inv disks (h, u)).0
      × EligibleIf inv (candidates inv disks (h, u)).1
unfolding candidates
candidates-EligibleIf inv [] h u eh eu = (eh, eu)
candidates-EligibleIf inv ((d, disk) ∷ disks) h u eh eu =
    let skipped = candidates-EligibleIf inv disks h u eh eu in
    elim (Bool-cases (unwrap_or false (inventory_allocates d inv))) [
      | inr e ↦ rw e skipped
      | inl e ↦ elim (Bool-cases (unwrap_or true (has_bad_regions d inv))) [
        | inl bad ↦ rw (e, bad) skipped
        | inr good ↦
            let o = get d inv.disks in
            let (eh', eu') = candidate-EligibleIf inv o d h u eh eu (
              unwrap_or-false (inventory_allocates d inv) e,
              unwrap_or-true (has_bad_regions d inv) good,
            ) in
            rw (e, good)
              (candidates-EligibleIf inv disks (may_be_candidate o d (h, u)).0
                (may_be_candidate o d (h, u)).1 eh' eu')
      ]
    ]

some-true : (b : Bool) → ◌≡◌ {A = Option Bool} (some b) (some true) → b ≡ true
some-true true h = refl
some-true false h = cc

preferred_disk-same : (p d : ℕ) (b : Bool) → preferred_disk p b ≡ inr d → (p ≡ d) × (b ≡ false)
preferred_disk-same p d true h = cc
preferred_disk-same p d false h = (cc, refl)

preferred_allocates-cases :
    (inv : DiskInventory) (p d : ℕ) (a : Option Bool)
    → preferred_allocates p inv a ≡ inr d
    → (a ≡ some true) × (preferred_disk p (unwrap_or false (has_bad_regions p inv)) ≡ inr d)
preferred_allocates-cases inv p d none h = cc
preferred_allocates-cases inv p d (some true) h = (refl, h)
preferred_allocates-cases inv p d (some false) h = cc

-- A disk that takes extents is known.
regions_of-known :
    (o : Option ManagedDisk)
    → allocates_of o ≡ some true
    → unwrap_or false (regions_of o) ≡ false
    → regions_of o ≡ some false
regions_of-known none h g = cc
regions_of-known (some disk) h g = ap some g

preferred-Eligible :
    (inv : DiskInventory) (p d : ℕ)
    → preferred_allocates p inv (inventory_allocates p inv) ≡ inr d
    → Eligible inv d
unfolding inventory_allocates has_bad_regions
preferred-Eligible inv p d h =
    let (takes, rest) = preferred_allocates-cases inv p d (inventory_allocates p inv) h in
    let (same, good) = preferred_disk-same p d (unwrap_or false (has_bad_regions p inv)) rest in
    subst (λ (e : ℕ). Eligible inv e) same (takes, regions_of-known (get p inv.disks) takes good)

chosen-EligibleIf :
    (inv : DiskInventory) (h u : Option ℕ) (d : ℕ)
    → EligibleIf inv h
    → EligibleIf inv u
    → chosen (h, u) ≡ inr d
    → Eligible inv d
chosen-EligibleIf inv (some e) u d eh eu is =
    let same : e ≡ d = cc in subst (λ (x : ℕ). Eligible inv x) same eh
chosen-EligibleIf inv none (some e) d eh eu is =
    let same : e ≡ d = cc in subst (λ (x : ℕ). Eligible inv x) same eu
chosen-EligibleIf inv none none d eh eu is = cc

pub select_write_disk-Eligible :
    (target : Option ℕ) (inv : DiskInventory) (d : ℕ)
    → select_write_disk target inv ≡ inr d
    → Eligible inv d
unfolding select_write_disk
select_write_disk-Eligible (some p) inv d h = preferred-Eligible inv p d h
select_write_disk-Eligible none inv d h =
    let (eh, eu) = candidates-EligibleIf inv inv.disks none none tt tt in
    chosen-EligibleIf inv (candidates inv inv.disks (none, none)).0
      (candidates inv inv.disks (none, none)).1 d eh eu h

allocates-reads : (s : DiskState) → allows_allocation s ≡ true → allows_reads s ≡ true
unfolding allows_allocation allows_reads
allocates-reads healthy h = refl
allocates-reads suspect h = refl
allocates-reads degraded h = cc
allocates-reads draining h = cc
allocates-reads failed h = cc
allocates-reads removed h = cc

reads_of-allocates : (o : Option ManagedDisk) → allocates_of o ≡ some true → reads_of o ≡ some true
unfolding disk_allocates
reads_of-allocates none h = cc
reads_of-allocates (some disk) h = elim (Bool-cases (allows_allocation disk.state)) [
  | inl e ↦ ap some (allocates-reads disk.state e)
  | inr e ↦ cc
]

-- A disk that takes new extents allows reads.
pub inventory_reads-allocates :
    (inv : DiskInventory) (d : ℕ)
    → inventory_allocates d inv ≡ some true
    → inventory_reads d inv ≡ some true
unfolding inventory_allocates inventory_reads
inventory_reads-allocates inv d h = reads_of-allocates (get d inv.disks) h
