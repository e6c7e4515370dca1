-- ===== src/Tests/Raft.antt =====
-- The theorems about the log and the state machine on disk, with a log of three entries: the node
-- crashes after the second one's transaction has failed, and then applies it again.
use blockyard.Common.{
  ℕ-eq, String-eq, ℕ, ◌≡◌, refl, true, false, Option, none, some, List, [], ◌∷◌, keep, arith,
}
use blockyard.Metadata.State.{MetadataResponse, advance_epoch, ok, epoch}
use blockyard.Raft.Entries.{EntryPayload, blank, normal, membership, Entry}
use blockyard.Raft.Machine.{
  MachineData, JsonOf, StateMachineStore, empty_db, open_store, apply, build_snapshot,
}
use blockyard.Raft.Restart.{Rising}
use blockyard.Raft.Crashes.{
  ReadsBack, Sound, applies, snapshots, restarts, Run, stays, turns, Run-Sound,
}
use blockyard.Tests.Demo.{strokes}

abbrev plain : JsonOf MachineData
plain = record { to_vec = λ d. d; from_slice = λ d. some d }

abbrev entry_at : ℕ → EntryPayload → Entry
entry_at index payload = record {
  log_id = record { term = 1; node_id = 1; index = index };
  payload = payload;
}

abbrev first : Entry
first = entry_at 1 blank

abbrev second : Entry
second = entry_at 2 (normal advance_epoch)

abbrev third : Entry
third = entry_at 3 (membership 7)

abbrev the_log : List Entry
the_log = first ∷ second ∷ third ∷ []

abbrev store_of :
    Option (StateMachineStore MachineData × Option (List MetadataResponse))
    → StateMachineStore MachineData
store_of none = open_store plain empty_db
store_of (some (s, answers)) = s

abbrev at_start : StateMachineStore MachineData
at_start = open_store plain empty_db

abbrev one : StateMachineStore MachineData
one = store_of (apply plain strokes true (first ∷ []) at_start)

abbrev failed : StateMachineStore MachineData
failed = store_of (apply plain strokes false (second ∷ []) one)

abbrev again : StateMachineStore MachineData
again = open_store plain (build_snapshot plain failed).0.db

abbrev whole : StateMachineStore MachineData
whole = store_of (apply plain strokes true (second ∷ third ∷ []) again)

whole_epoch : whole.memory.state.epoch ≡ 1
unfolding apply open_store build_snapshot
whole_epoch = refl

again_epoch : again.memory.state.epoch ≡ 0
unfolding apply open_store build_snapshot
again_epoch = refl

reads_plain : ReadsBack plain
reads_plain d = refl

log-Rising : Rising the_log
log-Rising = ((omega arith, (omega arith, tt)), ((omega arith, tt), (tt, tt)))

the-Run : Run plain strokes the_log at_start whole
unfolding apply open_store build_snapshot keep
the-Run =
    turns
      (turns
        (turns
          (turns
            (turns stays
              (applies true (first ∷ []) (second ∷ third ∷ []) (some (ok ∷ [])) refl refl))
            (applies false (second ∷ []) (third ∷ []) none refl refl))
          snapshots)
        restarts)
      (applies true (second ∷ third ∷ []) [] (some (epoch 1 ∷ ok ∷ [])) refl refl)

Run-Sound_example : Sound plain strokes the_log whole
Run-Sound_example = Run-Sound plain strokes the_log whole reads_plain log-Rising the-Run
