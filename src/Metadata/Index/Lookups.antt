-- ===== src/Metadata/Index/Lookups.antt =====
-- Replay of a log, and what the committed-state queries return after it.
use blockyard.Common.{
  ℕ-eq, String-eq, ℕ, String, ◌≡◌, refl, ap, Option, none, some, List, [], ◌∷◌, arith, Option-cases,
  inl, inr, true,
}
use blockyard.Common.Maps.{get, contains_key}
use blockyard.Metadata.State.{
  MetadataState, MetadataRequest, ExtentMapping, Outcome, initial, lookup_at,
  lookup_by_operation_id, lookup_by_extent_version,
}
use blockyard.Metadata.Apply.{apply_request, replay, follow}
use blockyard.Metadata.Index.Mappings.{key_of, op_of, version_of}
use blockyard.Metadata.Index.Invariant.{IndexInv, initial-IndexInv}
use blockyard.Metadata.Index.Requests.{Safe, apply_request-Safe}

-- A replay that does not panic, and whose last state satisfies `P`.
abbrev pub Replays : (MetadataState → Type 0) → Option MetadataState → Type 0
Replays P none = ⊥
Replays P (some s) = P s

follow-Replays :
    (P : MetadataState → Type 0) (o : Outcome) (next : MetadataState → Option MetadataState)
    → Safe P o
    → ((s : MetadataState) → P s → Replays P (next s))
    → Replays P (follow o next)
unfolding follow
follow-Replays P none next h k = h
follow-Replays P (some (s, resp)) next h k = k s h

pub replay-invariant :
    (to_string : ℕ → String) (P : MetadataState → Type 0)
    → ((req : MetadataRequest) (s : MetadataState) → P s → Safe P (apply_request to_string req s))
    → (log : List MetadataRequest) (s : MetadataState) → P s
    → Replays P (replay to_string log s)
unfolding replay
replay-invariant to_string P step [] s h = h
replay-invariant to_string P step (req ∷ log) s h =
    follow-Replays P (apply_request to_string req s) (replay to_string log) (step req s h)
      (replay-invariant to_string P step log)

module _ (to_string : ℕ → String) where
  -- No log of requests makes the state machine panic, and the state that it ends in satisfies the
  -- invariant of the indices: each index entry points to a mapping that carries the entry's tag,
  -- the volumes are those with a mapping table, and no mapping is from a later epoch.
  pub replay-IndexInv :
      (log : List MetadataRequest) → Replays (IndexInv to_string) (replay to_string log initial)
  replay-IndexInv log =
      replay-invariant to_string (IndexInv to_string) (apply_request-Safe to_string) log initial
        (initial-IndexInv to_string)

  reached :
      (log : List MetadataRequest) (s : MetadataState)
      → replay to_string log initial ≡ some s
      → IndexInv to_string s
  reached log s e = rw e at (replay-IndexInv log)

  key_of-injective :
      ((i j : ℕ) → to_string i ≡ to_string j → i ≡ j)
      → (o : Option ℕ) (i : ℕ) → key_of to_string o ≡ some (to_string i)
      → o ≡ some i
  key_of-injective injective none i e = cc
  key_of-injective injective (some j) i e = ap some (injective j i (ground arith))

  op_at-mapping :
      ((i j : ℕ) → to_string i ≡ to_string j → i ≡ j)
      → (o : Option ExtentMapping) (i : ℕ) → op_of to_string o ≡ some (to_string i)
      → (m : ExtentMapping) × (o ≡ some m) × (m.operation_id ≡ some i)
  op_at-mapping injective none i e = cc
  op_at-mapping injective (some m) i e = (m, refl, key_of-injective injective m.operation_id i e)

  -- After any log, an operation id that the index holds resolves to a mapping that was committed
  -- under that id, if ids are rendered to distinct texts.
  pub lookup_by_operation_id-resolves :
      ((i j : ℕ) → to_string i ≡ to_string j → i ≡ j)
      → (log : List MetadataRequest) (s : MetadataState) (op_id : ℕ)
      → replay to_string log initial ≡ some s
      → contains_key (to_string op_id) s.operation_index ≡ true
      → (m : ExtentMapping) × (lookup_by_operation_id to_string s op_id ≡ some m)
        × (m.operation_id ≡ some op_id)
  unfolding lookup_by_operation_id
  lookup_by_operation_id-resolves injective log s op_id e there =
      elim (Option-cases (get (to_string op_id) s.operation_index)) [
        | inl missing ↦ absurd (ground arith)
        | inr ((v, b), found) ↦
            let (m, here, same) =
              op_at-mapping injective _ op_id ((reached log s e).ops_sound _ v b found) in
            (m, rw (found, lookup_at) here, same)
      ]

  version_at-mapping :
      (o : Option ExtentMapping) (version : ℕ)
      → version_of o ≡ some version
      → (m : ExtentMapping) × (o ≡ some m) × (m.extent_version ≡ version)
  version_at-mapping none version e = cc
  version_at-mapping (some m) version e = (m, refl, ground arith)

  -- After any log, an extent version that the index holds resolves to a mapping of that version.
  pub lookup_by_extent_version-resolves :
      (log : List MetadataRequest) (s : MetadataState) (version : ℕ)
      → replay to_string log initial ≡ some s
      → contains_key version s.extent_version_index ≡ true
      → (m : ExtentMapping) × (lookup_by_extent_version s version ≡ some m)
        × (m.extent_version ≡ version)
  unfolding lookup_by_extent_version
  lookup_by_extent_version-resolves log s version e there =
      elim (Option-cases (get version s.extent_version_index)) [
        | inl missing ↦ absurd (ground arith)
        | inr ((v, b), found) ↦
            let (m, here, same) =
              version_at-mapping _ version ((reached log s e).versions_sound version v b found) in
            (m, rw (found, lookup_at) here, same)
      ]
