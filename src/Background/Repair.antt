-- ===== src/Background/Repair.antt =====
-- crates/blockyard-storage/src/background/repair.rs. The traits through which the worker reads and
-- writes disks are the record `RepairIo`, over a state of the disks, and `grants` says for which requests
-- the rate limiter lets the worker go on. The operations here meet no other caller of the worker. An
-- error keeps its kind in place of its text, and a byte is a number.
use blockyard.Common.{
  ℕ, zero, suc, ◌+◌, Bool, true, false, Option, none, some, List, [], ◌∷◌, ◌++◌, if◌then◌else◌, ltb,
  length,
}
use blockyard.Common.Slots.{set_fragment, no_fragments, available_count}

pub data RepairType : Type 0 where
  -- The disks with healthy copies.
  replication : List ℕ → RepairType
  -- The numbers of data and parity fragments, the fragments with their disks, and the length of the data.
  erasure_code : ℕ → ℕ → List (ℕ × ℕ) → ℕ → RepairType

pub record RepairRequest : Type 0 where
  pub extent_id : ℕ
  pub version : ℕ
  pub target_disk_id : ℕ
  pub repair_type : RepairType
  pub priority : ℕ

pub data RepairError : Type 0 where
  all_sources_failed write_failed reconstruction_failed : RepairError
  insufficient_fragments : ℕ → ℕ → RepairError

pub record RepairOutcome : Type 0 where
  pub extent_id : ℕ
  pub target_disk_id : ℕ
  pub success : Bool
  pub error : Option RepairError

pub record RepairWorker : Type 0 where
  pub queue : List RepairRequest
  pub completed : List RepairOutcome

-- `RepairExtentReader`, `FragmentReader`, `RepairExtentWriter` and `EcReconstructor`.
pub record RepairIo (S : Type 0) : Type 0 where
  pub read_extent : S → ℕ → ℕ → ℕ → Option (List ℕ)
  pub read_fragment : S → ℕ → ℕ → ℕ → Option (List ℕ)
  pub write_extent : ℕ → ℕ → ℕ → List ℕ → S → S × Bool
  pub reconstruct : ℕ → ℕ → List (Option (List ℕ)) → ℕ → Option (List ℕ)

abbrev pub new : RepairWorker
new = record { queue = []; completed = [] }

-- The insertion before the first request of a greater number.
unfoldable pub insert_request : RepairRequest → List RepairRequest → List RepairRequest
insert_request request [] = request ∷ []
insert_request request (r ∷ rs) =
    if ltb request.priority r.priority then request ∷ r ∷ rs else r ∷ insert_request request rs

unfoldable pub enqueue : RepairRequest → RepairWorker → RepairWorker
unfolding insert_request
enqueue request w = record w { queue = insert_request request w.queue }

unfoldable pub queue_len : RepairWorker → ℕ
queue_len w = length w.queue

abbrev pub repaired : RepairRequest → RepairOutcome
repaired request = record {
  extent_id = request.extent_id;
  target_disk_id = request.target_disk_id;
  success = true;
  error = none;
}

abbrev pub not_repaired : RepairRequest → RepairError → RepairOutcome
not_repaired request e = record {
  extent_id = request.extent_id;
  target_disk_id = request.target_disk_id;
  success = false;
  error = some e;
}

abbrev pub put_fragment : ℕ → Option (List ℕ) → List (Option (List ℕ)) → List (Option (List ℕ))
put_fragment idx none fragments = fragments
put_fragment idx (some bytes) fragments = set_fragment idx bytes fragments

module _ {S : Type 0} (io : RepairIo S) where
  -- What a copy to the target comes to: the next source is tried where its write fails.
  abbrev pub on_write : RepairRequest → (S → S × RepairOutcome) → S × Bool → S × RepairOutcome
  on_write request next (s, true) = (s, repaired request)
  on_write request next (s, false) = next s

  abbrev pub on_source :
      RepairRequest → (S → S × RepairOutcome) → Option (List ℕ) → S → S × RepairOutcome
  on_source request next none s = next s
  on_source request next (some bytes) s =
      on_write request next
        (io.write_extent request.target_disk_id request.extent_id request.version bytes s)

  unfoldable pub repair_replication : RepairRequest → List ℕ → S → S × RepairOutcome
  repair_replication request [] s = (s, not_repaired request all_sources_failed)
  repair_replication request (source ∷ sources) s =
      on_source request (repair_replication request sources)
        (io.read_extent s source request.extent_id request.version) s

  -- The loop over the available fragments. An index past the last fragment is left out.
  unfoldable pub read_fragments :
      ℕ → List (ℕ × ℕ) → S → List (Option (List ℕ)) → List (Option (List ℕ))
  unfolding set_fragment
  read_fragments extent_id [] s fragments = fragments
  read_fragments extent_id ((idx, disk_id) ∷ rest) s fragments =
      read_fragments extent_id rest s
        (put_fragment idx (io.read_fragment s disk_id extent_id idx) fragments)

  abbrev pub on_reconstructed : RepairRequest → Option (List ℕ) → S → S × RepairOutcome
  on_reconstructed request none s = (s, not_repaired request reconstruction_failed)
  on_reconstructed request (some bytes) s =
      on_write request (λ (s' : S). (s', not_repaired request write_failed))
        (io.write_extent request.target_disk_id request.extent_id request.version bytes s)

  unfoldable pub repair_ec : RepairRequest → ℕ → ℕ → List (ℕ × ℕ) → ℕ → S → S × RepairOutcome
  unfolding read_fragments no_fragments available_count
  repair_ec request data_count parity_count available_fragments original_data_len s =
      let fragments =
        read_fragments request.extent_id available_fragments s
          (no_fragments (data_count + parity_count)) in
      if ltb (available_count fragments) data_count
      then (s, not_repaired request (insufficient_fragments (available_count fragments) data_count))
      else on_reconstructed request
          (io.reconstruct data_count parity_count fragments original_data_len) s

  unfoldable pub repair : RepairRequest → RepairType → S → S × RepairOutcome
  unfolding repair_replication repair_ec
  repair request (replication healthy_sources) s = repair_replication request healthy_sources s
  repair request (erasure_code data_count parity_count available_fragments original_data_len) s =
      repair_ec request data_count parity_count available_fragments original_data_len s

  abbrev pub with_outcome :
      Option RepairOutcome
      → Option ((RepairWorker × S) × List RepairOutcome)
      → Option ((RepairWorker × S) × List RepairOutcome)
  with_outcome outcome none = none
  with_outcome none (some result) = some result
  with_outcome (some outcome) (some (ws, outcomes)) = some (ws, outcome ∷ outcomes)

  abbrev pub then_rounds :
      (RepairWorker × S → Option ((RepairWorker × S) × List RepairOutcome))
      → Option ((RepairWorker × S) × Option RepairOutcome)
      → Option ((RepairWorker × S) × List RepairOutcome)
  then_rounds next none = none
  then_rounds next (some (ws, outcome)) = with_outcome outcome (next ws)

  -- Whether the rate limiter ever grants the tokens of a request.
  module _ (grants : RepairRequest → Bool) where
    -- `none` where the call waits for its tokens for ever.
    unfoldable pub process_next :
        RepairWorker × S → Option ((RepairWorker × S) × Option RepairOutcome)
    unfolding repair
    process_next (w, s) = elim w.queue [
      | [] ↦ some ((w, s), none)
      | request ∷ rest ↦
          let (s', outcome) = repair request request.repair_type s in
          if grants request
          then some (
            (record { queue = rest; completed = w.completed ++ (outcome ∷ []) }, s'),
            some outcome,
          )
          else none
    ]

    -- The loop of `process_all`. `none` stands for a loop that goes on, or waits for ever.
    unfoldable pub process_all :
        ℕ → RepairWorker × S → Option ((RepairWorker × S) × List RepairOutcome)
    unfolding process_next queue_len
    process_all zero ws = none
    process_all (suc fuel) ws =
        if ltb 0 (queue_len ws.0)
        then then_rounds (process_all fuel) (process_next ws)
        else some (ws, [])
