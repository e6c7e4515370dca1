-- ===== src/Raft/Crashes.antt =====
-- What a node's state machine is after any crashes and restarts
-- (crates/blockyard-raft/src/persistent_store.rs).
use blockyard.Common.{
  ℕ, ◌≡◌, refl, sym, ap, ◌∙◌, String, Bool, true, false, Option, none, some, List, [], ◌++◌, arith,
}
use mathlib.Core.Path.{subst}
use mathlib.Core.List.{append_assoc}
use blockyard.Metadata.State.{MetadataResponse}
use blockyard.Raft.Entries.{Entry}
use blockyard.Raft.Machine.{
  MachineData, new_data, JsonOf, StateMachineStore, empty_db, open_store, persist_state,
  apply_entries, on_applied, apply, build_snapshot, install_snapshot,
}
use blockyard.Raft.Restart.{
  Rising, entries_after, last_of, entries_after-append, apply_entries-last, apply_entries-append,
}

-- What can be read back from the JSON of a state machine.
abbrev pub ReadsBack : {Text : Type 0} → JsonOf Text → Type 0
ReadsBack json = (d : MachineData) → json.from_slice (json.to_vec d) ≡ some d

module _ (to_string : ℕ → String) where
  -- A state to which the first entries of a log lead, each applied once and in order, and from which Raft
  -- goes on with exactly the other entries.
  abbrev pub Prefix : List Entry → MachineData → Type 0
  Prefix log d =
      (done : List Entry) × (rest : List Entry) × (resps : List MetadataResponse) × (log
        ≡ done ++ rest)
      × (apply_entries to_string done new_data ≡ some (d, resps))
      × (entries_after d.last_applied log ≡ rest)

  Prefix-new : (log : List Entry) → Prefix log new_data
  unfolding apply_entries
  Prefix-new log = ([], log, [], refl, refl, refl)

  Prefix-next :
      (log batch more : List Entry) (d d' : MachineData) (later : List MetadataResponse)
      → Rising log
      → Prefix log d
      → entries_after d.last_applied log ≡ batch ++ more
      → apply_entries to_string batch d ≡ some (d', later)
      → Prefix log d'
  Prefix-next log batch more d d' later rising (done, rest, resps, parts, ran, left) next run =
      let whole : log ≡ (done ++ batch) ++ more =
        parts
        ∙ ap (λ (es : List Entry). done ++ es) (sym left ∙ next)
        ∙ sym (append_assoc done batch more) in
      let all : apply_entries to_string (done ++ batch) new_data ≡ some (d', resps ++ later) =
        apply_entries-append to_string done batch new_data d d' resps later ran run in
      let last : d'.last_applied ≡ last_of none (done ++ batch) =
        apply_entries-last to_string (done ++ batch) new_data d' (resps ++ later) all in
      let follow : entries_after (last_of none (done ++ batch)) log ≡ more =
        subst (λ (es : List Entry). entries_after (last_of none (done ++ batch)) es ≡ more)
          (sym whole) (entries_after-append (done ++ batch) more (subst Rising whole rising)) in
      (done ++ batch, more, resps ++ later, whole, all, rw last follow)

module _ {Text : Type 0} (json : JsonOf Text) (to_string : ℕ → String) (log : List Entry) where
  -- What is in memory, and what a restart would put there.
  abbrev pub Sound : StateMachineStore Text → Type 0
  Sound s = Prefix to_string log s.memory × Prefix to_string log (open_store json s.db).memory

  -- Raft gives the state machine the next entries of the log, whose transaction may fail, the node takes a
  -- snapshot, is given the snapshot of a node whose state machine is sound, or crashes and starts again.
  pub data Turn (s : StateMachineStore Text) : StateMachineStore Text → Type 0 where
    applies :
        {s' : StateMachineStore Text}
        → (commits : Bool) (batch more : List Entry) (answers : Option (List MetadataResponse))
        → entries_after s.memory.last_applied log ≡ batch ++ more
        → apply json to_string commits batch s ≡ some (s', answers)
        → Turn s s'
    snapshots : Turn s (build_snapshot json s).0
    installs :
        (other : StateMachineStore Text)
        → Sound other
        → Turn s
            (install_snapshot json
              (build_snapshot json other).1.0
              (build_snapshot json other).1.1
              s).0
    restarts : Turn s (open_store json s.db)

  pub data Run (s : StateMachineStore Text) : StateMachineStore Text → Type 0 where
    stays : Run s s
    turns : {s' s'' : StateMachineStore Text} → Run s s' → Turn s' s'' → Run s s''

  Sound-empty : Sound (open_store json empty_db)
  unfolding open_store
  Sound-empty = (Prefix-new to_string log, Prefix-new to_string log)

  -- After a state has been written it is what a restart reads.
  written :
      (s : StateMachineStore Text)
      → ReadsBack json
      → (open_store json (persist_state json true s).0.db).memory ≡ s.memory
  unfolding open_store persist_state
  written s reads = rw (reads s.memory) refl

  Sound-persist :
      (commits : Bool) (s : StateMachineStore Text) (d : MachineData)
      → ReadsBack json
      → Sound s
      → Prefix to_string log d
      → Sound (persist_state json commits (record s { memory = d })).0
  unfolding persist_state
  Sound-persist false s d reads sound next = (next, sound.1)
  Sound-persist true s d reads sound next =
      (next, subst (Prefix to_string log) (sym (written (record s { memory = d }) reads)) next)

  abbrev store_of :
      StateMachineStore Text
      → Option (StateMachineStore Text × Option (List MetadataResponse))
      → StateMachineStore Text
  store_of s none = s
  store_of s (some (s', answers)) = s'

  on_applied-done :
      (commits : Bool) (s s' : StateMachineStore Text)
      (o : Option (MachineData × List MetadataResponse)) (answers : Option (List MetadataResponse))
      → on_applied json to_string commits s o ≡ some (s', answers)
      → (d : MachineData) × (resps : List MetadataResponse) × (o ≡ some (d, resps))
        × ((persist_state json commits (record s { memory = d })).0 ≡ s')
  on_applied-done commits s s' none answers h = ground arith
  on_applied-done commits s s' (some (d, resps)) answers h = (d, resps, refl, ap (store_of s) h)

  Sound-install :
      (s other : StateMachineStore Text)
      → ReadsBack json
      → Sound s
      → Sound other
      → Sound
          (install_snapshot json
            (build_snapshot json other).1.0
            (build_snapshot json other).1.1
            s).0
  unfolding build_snapshot install_snapshot open_store
  Sound-install s other reads sound there =
      rw (reads other.memory) (Sound-persist true s other.memory reads sound there.0)

  Turn-Sound :
      (s s' : StateMachineStore Text) → ReadsBack json → Rising log → Sound s → Turn s s' → Sound s'
  unfolding apply build_snapshot open_store
  Turn-Sound s s' reads rising sound (applies commits batch more answers next run) =
      let (d, resps, done, is) =
        on_applied-done commits s s' (apply_entries to_string batch s.memory) answers run in
      subst Sound is (
        Sound-persist commits s d reads sound
          (Prefix-next to_string log batch more s.memory d resps rising sound.0 next done))
  Turn-Sound s s' reads rising sound snapshots = sound
  Turn-Sound s s' reads rising sound (installs other there) =
      Sound-install s other reads sound there
  Turn-Sound s s' reads rising sound restarts = (sound.1, sound.1)

  -- When a state machine reads back from its JSON and the log stands in the order of its indices, then,
  -- from an empty disk on, after any batches whose transactions commit or fail, snapshots built and installed, and crashes, the
  -- state in memory and the one a restart would read are each what the first entries of the log lead to,
  -- each applied once and in order, and the entries after `last_applied` are exactly the others.
  pub Run-Sound :
      (s : StateMachineStore Text)
      → ReadsBack json
      → Rising log
      → Run (open_store json empty_db) s
      → Sound s
  Run-Sound s reads rising stays = Sound-empty
  Run-Sound s' reads rising (turns {s' = s} run turn) =
      Turn-Sound s s' reads rising (Run-Sound s reads rising run) turn
