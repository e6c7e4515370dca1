-- ===== src/Raft/Restart.antt =====
-- The entries of the log that a state machine has applied, and those that follow
-- (crates/blockyard-raft/src/persistent_store.rs).
use blockyard.Common.{
  ℕ-eq, String-eq, ℕ, ◌≡◌, ◌<◌, refl, sym, ap, ◌∙◌, String, true, false, Option, none, some, List,
  [], ◌∷◌, ◌++◌, ltb, keep, All, arith,
}
use mathlib.Core.Path.{subst}
use blockyard.Metadata.State.{MetadataResponse, Outcome}
use blockyard.Metadata.Apply.{apply_request}
use blockyard.Raft.Entries.{LogId, EntryPayload, blank, normal, membership, Entry}
use blockyard.Raft.Log.{index_of}
use blockyard.Raft.Machine.{
  MachineData, on_payload, with_response, apply_entry, and_response, then_entries, apply_entries,
}

-- The entries of a log stand in the order of their indices.
abbrev pub Rising : List Entry → Type 0
Rising [] = Unit
Rising (e ∷ es) = All (λ (f : Entry). index_of e < index_of f) es × Rising es

-- The entries that Raft gives to a state machine that has applied the log up to an id.
abbrev pub entries_after : Option LogId → List Entry → List Entry
entries_after none log = log
entries_after (some id) log = keep (λ (e : Entry). ltb id.index (index_of e)) log

abbrev pub last_of : Option LogId → List Entry → Option LogId
last_of id [] = id
last_of id (e ∷ es) = last_of (some e.log_id) es

keep-above :
    (n : ℕ) (es : List Entry)
    → All (λ (f : Entry). n < index_of f) es
    → keep (λ (e : Entry). ltb n (index_of e)) es ≡ es
unfolding keep
keep-above n [] h = refl
keep-above n (e ∷ es) h =
    let there : ltb n (index_of e) ≡ true = ground arith in
    rw there (ap (λ (fs : List Entry). e ∷ fs) (keep-above n es h.1))

All-append_right :
    (n : ℕ) (es fs : List Entry)
    → All (λ (f : Entry). n < index_of f) (es ++ fs)
    → All (λ (f : Entry). n < index_of f) fs
All-append_right n [] fs h = h
All-append_right n (e ∷ es) fs h = All-append_right n es fs h.1

All-append_left :
    (n : ℕ) (es fs : List Entry)
    → All (λ (f : Entry). n < index_of f) (es ++ fs)
    → All (λ (f : Entry). n < index_of f) es
All-append_left n [] fs h = tt
All-append_left n (e ∷ es) fs h = (h.0, All-append_left n es fs h.1)

last_of-above :
    (n : ℕ) (e : Entry) (es : List Entry)
    → n < index_of e
    → All (λ (f : Entry). n < index_of f) es
    → (id : LogId) × (last_of (some e.log_id) es ≡ some id) × (n < id.index)
last_of-above n e [] lt h = (e.log_id, refl, lt)
last_of-above n e (f ∷ es) lt h = last_of-above n f es h.0 h.1

-- After a part of a log, from an entry on, come the entries that follow it.
after_from :
    (e : Entry) (es rest : List Entry)
    → Rising (e ∷ (es ++ rest))
    → entries_after (last_of (some e.log_id) es) (e ∷ (es ++ rest)) ≡ rest
unfolding keep
after_from e [] rest rising =
    let own : ltb (index_of e) (index_of e) ≡ false = ground arith in
    rw own (keep-above (index_of e) rest rising.0)
after_from e (f ∷ es) rest rising =
    let (id, is, above) =
      last_of-above (index_of e) f es rising.0.0
        (All-append_left (index_of e) es rest rising.0.1) in
    let passed : ltb id.index (index_of e) ≡ false = ground arith in
    let later : entries_after (some id) (f ∷ (es ++ rest)) ≡ rest =
      subst (λ (o : Option LogId). entries_after o (f ∷ (es ++ rest)) ≡ rest) is
        (after_from f es rest rising.1) in
    rw (is, passed) later

pub entries_after-append :
    (es rest : List Entry)
    → Rising (es ++ rest)
    → entries_after (last_of none es) (es ++ rest) ≡ rest
entries_after-append [] rest rising = refl
entries_after-append (e ∷ es) rest rising = after_from e es rest rising

abbrev applied_of : {A : Type 0} → Option (MachineData × A) → Option LogId
applied_of none = none
applied_of (some (d, a)) = d.last_applied

abbrev pub data_of : {A : Type 0} → MachineData → Option (MachineData × A) → MachineData
data_of d none = d
data_of d (some (d', a)) = d'

abbrev answers_of : Option (MachineData × List MetadataResponse) → List MetadataResponse
answers_of none = []
answers_of (some (d, resps)) = resps

module _ (to_string : ℕ → String) where
  with_response-last :
      (o : Outcome) (d d' : MachineData) (resp : MetadataResponse)
      → with_response to_string o d ≡ some (d', resp)
      → d'.last_applied ≡ d.last_applied
  with_response-last none d d' resp h = ground arith
  with_response-last (some (st, r)) d d' resp h = sym (ap applied_of h)

  on_payload-last :
      (log_id : LogId) (p : EntryPayload) (d d' : MachineData) (resp : MetadataResponse)
      → on_payload to_string log_id p d ≡ some (d', resp)
      → d'.last_applied ≡ d.last_applied
  on_payload-last log_id blank d d' resp h = sym (ap applied_of h)
  on_payload-last log_id (normal req) d d' resp h =
      with_response-last (apply_request to_string req d.state) d d' resp h
  on_payload-last log_id (membership mem) d d' resp h = sym (ap applied_of h)

  and_response-done :
      (resp : MetadataResponse) (o : Option (MachineData × List MetadataResponse))
      (d' : MachineData) (resps : List MetadataResponse)
      → and_response to_string resp o ≡ some (d', resps)
      → (later : List MetadataResponse) × (o ≡ some (d', later)) × (resps ≡ resp ∷ later)
  and_response-done resp none d' resps h = ground arith
  and_response-done resp (some (d2, later)) d' resps h =
      (later, ap (λ (d : MachineData). some (d, later)) (ap (data_of d2) h), sym (ap answers_of h))

  then_entries-done :
      (next : MachineData → Option (MachineData × List MetadataResponse))
      (o : Option (MachineData × MetadataResponse)) (d' : MachineData)
      (resps : List MetadataResponse)
      → then_entries to_string next o ≡ some (d', resps)
      → (d1 : MachineData) × (resp : MetadataResponse) × (later : List MetadataResponse) × (o
          ≡ some (d1, resp))
        × (next d1 ≡ some (d', later))
        × (resps ≡ resp ∷ later)
  then_entries-done next none d' resps h = ground arith
  then_entries-done next (some (d1, resp)) d' resps h =
      let (later, is, all) = and_response-done resp (next d1) d' resps h in
      (d1, resp, later, refl, is, all)

  -- What the first of some applied entries has done, and the rest.
  first_applied :
      (e : Entry) (es : List Entry) (d d' : MachineData) (resps : List MetadataResponse)
      → apply_entries to_string (e ∷ es) d ≡ some (d', resps)
      → (d1 : MachineData) × (resp : MetadataResponse) × (later : List MetadataResponse)
        × (apply_entry to_string e d ≡ some (d1, resp))
        × (apply_entries to_string es d1 ≡ some (d', later))
        × (resps ≡ resp ∷ later)
  unfolding apply_entries
  first_applied e es d d' resps h =
      then_entries-done (apply_entries to_string es) (apply_entry to_string e d) d' resps h

  apply_entry-last :
      (e : Entry) (d d' : MachineData) (resp : MetadataResponse)
      → apply_entry to_string e d ≡ some (d', resp)
      → d'.last_applied ≡ some e.log_id
  unfolding apply_entry
  apply_entry-last e d d' resp h =
      on_payload-last e.log_id e.payload (record d { last_applied = some e.log_id }) d' resp h

  pub apply_entries-last :
      (es : List Entry) (d d' : MachineData) (resps : List MetadataResponse)
      → apply_entries to_string es d ≡ some (d', resps)
      → d'.last_applied ≡ last_of d.last_applied es
  unfolding apply_entries
  apply_entries-last [] d d' resps h = sym (ap applied_of h)
  apply_entries-last (e ∷ es) d d' resps h =
      let (d1, resp, later, one, rest, all) = first_applied e es d d' resps h in
      apply_entries-last es d1 d' later rest
      ∙ ap (λ (id : Option LogId). last_of id es) (apply_entry-last e d d1 resp one)

  pub apply_entries-append :
      (es fs : List Entry) (d d1 d2 : MachineData) (resps later : List MetadataResponse)
      → apply_entries to_string es d ≡ some (d1, resps)
      → apply_entries to_string fs d1 ≡ some (d2, later)
      → apply_entries to_string (es ++ fs) d ≡ some (d2, resps ++ later)
  unfolding apply_entries
  apply_entries-append [] fs d d1 d2 resps later h k =
      let same : d ≡ d1 = ap (data_of d) h in
      let no : [] ≡ resps = ap answers_of h in rw (same, sym no) k
  apply_entries-append (e ∷ es) fs d d1 d2 resps later h k =
      let (d', resp, more, one, rest, all) = first_applied e es d d1 resps h in
      let longer : apply_entries to_string (es ++ fs) d' ≡ some (d2, more ++ later) =
        apply_entries-append es fs d' d1 d2 more later rest k in
      rw (one, longer, all) refl
