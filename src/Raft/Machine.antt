-- ===== src/Raft/Machine.antt =====
-- crates/blockyard-raft/src/persistent_store.rs, `PersistentStateMachineStore`. The JSON of the state
-- machine is what the argument `json` says; that of a log id, a membership and a snapshot's
-- description stands for the thing itself. `none` of an application stands for a panic. A transaction
-- commits as a whole, or fails and changes nothing.
use blockyard.Common.{
  ℕ-eq, String-eq, ℕ, String, Bool, true, false, Option, none, some, List, [], ◌∷◌, if◌then◌else◌,
  wrapping_add,
}
use blockyard.Metadata.State.{MetadataState, MetadataResponse, ok, initial, Outcome}
use blockyard.Metadata.Apply.{apply_request}
use blockyard.Raft.Entries.{LogId, EntryPayload, blank, normal, membership, Entry, StoredMembership}

-- `MetadataStateMachineData`, of which `MetadataState` is the part that requests change.
pub record MachineData : Type 0 where
  pub state : MetadataState
  pub last_applied : Option LogId
  pub last_membership : StoredMembership

abbrev pub new_data : MachineData
new_data = record {
  state = initial;
  last_applied = none;
  last_membership = record { log_id = none; membership = 0 };
}

-- How the state machine is written as JSON, and read back if it can be.
pub record JsonOf (Text : Type 0) : Type 0 where
  pub to_vec : MachineData → Text
  pub from_slice : Text → Option MachineData

pub record SnapshotMeta : Type 0 where
  pub last_log_id : Option LogId
  pub last_membership : StoredMembership
  -- The number in the id of a snapshot that a node has built itself.
  pub snapshot_id : ℕ

-- The tables on disk.
pub record MachineDb (Text : Type 0) : Type 0 where
  pub sm_data : Option Text
  pub last_applied : Option (Option LogId)
  pub membership : Option StoredMembership
  pub snapshot : Option (SnapshotMeta × Text)

pub record StateMachineStore (Text : Type 0) : Type 0 where
  pub db : MachineDb Text
  pub memory : MachineData
  pub snapshot_idx : ℕ

abbrev pub empty_db : {Text : Type 0} → MachineDb Text
empty_db = record { sm_data = none; last_applied = none; membership = none; snapshot = none }

abbrev pub or_new : Option MachineData → MachineData
or_new none = new_data
or_new (some d) = d

abbrev pub read_applied : Option (Option LogId) → MachineData → MachineData
read_applied none d = d
read_applied (some lid) d = record d { last_applied = lid }

abbrev pub read_membership : Option StoredMembership → MachineData → MachineData
read_membership none d = d
read_membership (some mem) d = record d { last_membership = mem }

module _ (to_string : ℕ → String) where
  abbrev pub with_response : Outcome → MachineData → Option (MachineData × MetadataResponse)
  with_response none d = none
  with_response (some (state, resp)) d = some (record d { state = state }, resp)

  abbrev pub on_payload :
      LogId → EntryPayload → MachineData → Option (MachineData × MetadataResponse)
  on_payload log_id blank d = some (d, ok)
  on_payload log_id (normal req) d = with_response (apply_request to_string req d.state) d
  on_payload log_id (membership mem) d =
      some (record d { last_membership = record { log_id = some log_id; membership = mem } }, ok)

  -- One entry of `apply`.
  unfoldable pub apply_entry : Entry → MachineData → Option (MachineData × MetadataResponse)
  unfolding apply_request
  apply_entry e d = on_payload e.log_id e.payload (record d { last_applied = some e.log_id })

  abbrev pub and_response :
      MetadataResponse
      → Option (MachineData × List MetadataResponse)
      → Option (MachineData × List MetadataResponse)
  and_response resp none = none
  and_response resp (some (d, resps)) = some (d, resp ∷ resps)

  abbrev pub then_entries :
      (MachineData → Option (MachineData × List MetadataResponse))
      → Option (MachineData × MetadataResponse)
      → Option (MachineData × List MetadataResponse)
  then_entries next none = none
  then_entries next (some (d, resp)) = and_response resp (next d)

  -- The loop of `apply`, in memory.
  unfoldable pub apply_entries :
      List Entry → MachineData → Option (MachineData × List MetadataResponse)
  unfolding apply_entry
  apply_entries [] d = some (d, [])
  apply_entries (e ∷ es) d = then_entries (apply_entries es) (apply_entry e d)

module _ {Text : Type 0} (json : JsonOf Text) where
  abbrev pub read_data : Option Text → MachineData
  read_data none = new_data
  read_data (some text) = or_new (json.from_slice text)

  -- `new`, with which a node starts.
  unfoldable pub open_store : MachineDb Text → StateMachineStore Text
  open_store db = record {
    db = db;
    memory = read_membership db.membership (read_applied db.last_applied (read_data db.sm_data));
    snapshot_idx = 0;
  }

  -- `persist_state`, with whether its transaction commits.
  unfoldable pub persist_state : Bool → StateMachineStore Text → StateMachineStore Text × Bool
  persist_state false s = (s, false)
  persist_state true s = (
    record s {
      db = record s.db {
        sm_data = some (json.to_vec s.memory);
        last_applied = some s.memory.last_applied;
        membership = some s.memory.last_membership;
      };
    },
    true,
  )

  module _ (to_string : ℕ → String) where
    abbrev pub on_applied :
        Bool
        → StateMachineStore Text
        → Option (MachineData × List MetadataResponse)
        → Option (StateMachineStore Text × Option (List MetadataResponse))
    on_applied commits s none = none
    on_applied commits s (some (d, resps)) =
        let (s', saved) = persist_state commits (record s { memory = d }) in
        some (s', if saved then some resps else none)

    -- `none` inside stands for the error of the transaction.
    unfoldable pub apply :
        Bool
        → List Entry
        → StateMachineStore Text
        → Option (StateMachineStore Text × Option (List MetadataResponse))
    unfolding apply_entries persist_state
    apply commits entries s = on_applied commits s (apply_entries to_string entries s.memory)

  -- The number of the snapshot id counts the snapshots since the start.
  unfoldable pub build_snapshot :
      StateMachineStore Text → StateMachineStore Text × (SnapshotMeta × Text)
  build_snapshot s =
      let idx = wrapping_add s.snapshot_idx 1 in
      let meta : SnapshotMeta = record {
        last_log_id = s.memory.last_applied;
        last_membership = s.memory.last_membership;
        snapshot_id = idx;
      } in
      let text = json.to_vec s.memory in
      (
        record s { db = record s.db { snapshot = some (meta, text) }; snapshot_idx = idx },
        (meta, text),
      )

  abbrev pub on_restored :
      SnapshotMeta
      → Text
      → Option MachineData
      → StateMachineStore Text
      → StateMachineStore Text × Bool
  on_restored meta text none s = (s, false)
  on_restored meta text (some d) s =
      let (s', saved) = persist_state true (record s {
        memory = record d {
          last_applied = meta.last_log_id;
          last_membership = meta.last_membership;
        };
      }) in
      (record s' { db = record s'.db { snapshot = some (meta, text) } }, saved)

  -- `install_snapshot`, while its transactions commit.
  unfoldable pub install_snapshot :
      SnapshotMeta → Text → StateMachineStore Text → StateMachineStore Text × Bool
  unfolding persist_state
  install_snapshot meta text s = on_restored meta text (json.from_slice text) s

  unfoldable pub get_current_snapshot : StateMachineStore Text → Option (SnapshotMeta × Text)
  get_current_snapshot s = s.db.snapshot

  unfoldable pub applied_state : StateMachineStore Text → Option LogId × StoredMembership
  applied_state s = (s.memory.last_applied, s.memory.last_membership)
