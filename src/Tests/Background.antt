-- ===== src/Tests/Background.antt =====
-- The theorems about the background workers, on disks that hold one extent each.
use blockyard.Common.{
  ℕ, ◌≡◌, ◌↔◌, refl, true, false, Bool-cases, inl, inr, Option, none, some, List, [], ◌∷◌, ◌++◌,
  if◌then◌else◌, nat_eq, ltb, bytes_eq, keep, arith, ℕ-eq,
}
use blockyard.Background.Repair.{
  RepairRequest, RepairWorker, RepairIo, replication, enqueue, new, repair_replication, process_all,
}
use blockyard.Background.Priority.{Sorted, of_priority, enqueue_all, enqueue_all-Served}
use blockyard.Background.Copies.{
  repair_each, process_all-repairs, CopiedFrom, ReadsBack, KeepsOthers,
  repair_replication-CopiedFrom,
}
use blockyard.Background.Drain.{
  DrainExtentEntry, DrainProgress, DrainSurroundings, drain_disk, drain_loop, relocate,
  finish_drain,
}
use blockyard.Background.Scrub.{
  ScrubExtentEntry, ReadAnswer, ScrubSurroundings, computed_checksum, read_failed, metadata_text,
  contains, starts_with,
}
use blockyard.Background.Scrubbed.{to_report}
use blockyard.Background.Drained.{Targeted, drain_disk-complete}

-- Disks by what they hold. Disk 8 takes no writes.
abbrev Disks : Type 0
Disks = ℕ → Option (List ℕ)

abbrev put : ℕ → List ℕ → Disks → Disks
put disk bytes s = λ (d : ℕ). if nat_eq d disk then some bytes else s d

abbrev io : RepairIo Disks
io = record {
  read_extent = λ s disk extent_id version. s disk;
  read_fragment = λ s disk extent_id index. s disk;
  write_extent = λ disk extent_id version bytes s.
      if nat_eq disk 8 then (s, false) else (put disk bytes s, true);
  reconstruct = λ data_count parity_count fragments original_len. none;
}

io-ReadsBack : ReadsBack io
io-ReadsBack disk extent_id version bytes s h = elim (Bool-cases (nat_eq disk 8)) [
  | inl e ↦ absurd (ground arith)
  | inr e ↦ rw e (ground arith)
]

io-KeepsOthers : KeepsOthers io
io-KeepsOthers disk other extent_id version other_id other_version bytes s apart =
    elim (Bool-cases (nat_eq disk 8)) [
      | inl e ↦ rw e refl
      | inr e ↦ let differ : nat_eq other disk ≡ false = ground arith in rw (e, differ) refl
    ]

abbrev request : ℕ → ℕ → RepairRequest
request extent_id priority = record {
  extent_id = extent_id;
  version = 1;
  target_disk_id = 5;
  repair_type = replication (3 ∷ 4 ∷ []);
  priority = priority;
}

-- Disk 4 holds a copy, disk 3 none.
abbrev disks : Disks
disks = put 4 (7 ∷ 9 ∷ []) (λ (d : ℕ). none)

enqueue_all-Served_example :
    Sorted (enqueue_all (request 1 200 ∷ request 2 100 ∷ request 3 100 ∷ []) new).queue
    × ((p : ℕ)
        → keep
            (of_priority p)
            (enqueue_all (request 1 200 ∷ request 2 100 ∷ request 3 100 ∷ []) new).queue
          ≡ keep (of_priority p) []
            ++ keep (of_priority p) (request 1 200 ∷ request 2 100 ∷ request 3 100 ∷ []))
enqueue_all-Served_example =
    enqueue_all-Served (request 1 200 ∷ request 2 100 ∷ request 3 100 ∷ []) new tt

abbrev queued : RepairWorker
queued = record { queue = request 2 100 ∷ request 1 200 ∷ []; completed = [] }

process_all-repairs_example :
    process_all io (λ r. true) 3 (queued, disks)
    ≡ some (
      (
        record { queue = []; completed = [] ++ (repair_each io queued.queue disks).1 },
        (repair_each io queued.queue disks).0,
      ),
      (repair_each io queued.queue disks).1,
    )
process_all-repairs_example =
    process_all-repairs io (λ r. true) 3 queued disks (refl, (refl, tt)) (ground arith)

repair_replication-CopiedFrom_example :
    CopiedFrom io
      (request 1 200)
      (3 ∷ 4 ∷ [])
      disks
      (repair_replication io (request 1 200) (3 ∷ 4 ∷ []) disks).0
unfolding repair_replication
repair_replication-CopiedFrom_example =
    repair_replication-CopiedFrom io io-ReadsBack io-KeepsOthers (request 1 200) (3 ∷ 4 ∷ []) disks
      ((λ h. absurd (omega arith)), ((λ h. absurd (omega arith)), tt)) refl

abbrev entries : List DrainExtentEntry
entries =
    (record { extent_id = 1; version = 1; healthy_sources = 3 ∷ [] })
    ∷ (record { extent_id = 2; version = 4; healthy_sources = 3 ∷ 4 ∷ [] })
    ∷ []

-- The repair worker takes every request at once, and no repair succeeds.
abbrev around : DrainSurroundings
around = record {
  is_draining = λ i. true;
  grants = λ i. true;
  during_wait = λ i w. w;
  select_target_disk = λ i. some 6;
  during_delay = λ i w. record w { queue = [] };
  transition_to_removed = true;
}

drain_disk-complete_example :
    (r : RepairWorker × DrainProgress) × (drain_disk around entries 3 new ≡ some r)
    × ((r.1.complete ≡ true) ↔ (Targeted around 0 entries × (true ≡ true)))
drain_disk-complete_example = drain_disk-complete around entries 3 new (λ i. refl)

drain_run :
    drain_disk around entries 3 new
    ≡ some
        (new, record { disk_id = 3; total_extents = 2; relocated = 2; failed = 0; complete = true })
unfolding drain_disk drain_loop relocate finish_drain enqueue
drain_run = refl

-- Extent 1 is intact, extent 2 has another checksum and extent 4 no metadata.
abbrev read_back : ℕ → ℕ → ℕ → ReadAnswer
read_back disk_id extent_id version =
    if nat_eq extent_id 1
    then computed_checksum (9 ∷ [])
    else (if nat_eq extent_id 2
        then computed_checksum (8 ∷ [])
        else read_failed (32 ∷ metadata_text))

abbrev scrubbed : ℕ → ScrubExtentEntry
scrubbed extent_id = record {
  extent_id = extent_id;
  disk_id = 3;
  expected_checksum = 9 ∷ [];
  version = 1;
}

abbrev on_disk : ℕ → List ScrubExtentEntry
on_disk disk_id = scrubbed 1 ∷ scrubbed 2 ∷ scrubbed 4 ∷ []

-- The channel takes the first report only.
abbrev scrubbing : ScrubSurroundings
scrubbing = record {
  read_extent = read_back;
  grants = λ disk_id index. true;
  delivers = λ disk_id index. ltb index 2;
}

scrub_run : to_report scrubbing 3 0 (on_disk 3) ≡ 2 ∷ []
unfolding bytes_eq contains starts_with
scrub_run = refl
