-- ===== src/Metadata/RaftIds.antt =====
-- crates/blockyard-raft/src/state_machine.rs: `RegisterNode`, the numbers that it hands out.
use blockyard.Common.{
  ℕ-eq, String-eq, ℕ, suc, String, ◌≡◌, ◌≤◌, ◌<◌, ◌+◌, refl, Option, none, some, List, [], ◌∷◌,
  arith, Option-cases, Bool-cases, inl, inr, wrapping_add, u64_mod, nat_eq, length,
}
use blockyard.Common.Maps.{Map, get, get-insert, contains_key, IsDistinct, insert-IsDistinct}
use blockyard.Metadata.State.{
  MetadataState, MetadataRequest, initial, get_raft_id, get_node_id_by_raft_id, find_id,
  delete_volume, register_node, register_disk, update_disk_usage, deregister_disk,
  cleanup_expired_leases,
}
use blockyard.Metadata.Leases.{cleanup_expired}
use blockyard.Metadata.LeaseLaws.Frame.{lease-frame}
use blockyard.Metadata.Apply.{apply_request, replay, register, put_node, set_usage, delete}
use blockyard.Metadata.CommitLaws.Epochs.{Keeps, Keeps-mono}
use blockyard.Metadata.Frame.{SameRest, request-SameRest, delete-rest, IsMapping}
use blockyard.Metadata.Counted.{replay-from_zero, replay-Keeps}

-- The ids are the numbers from 1 to the counter, no two nodes have the same one, and the counter
-- is at most the number of requests that have been applied.
pub record RaftInv (n : ℕ) (s : MetadataState) : Type 0 where
  pub counted : s.raft_id_counter ≤ n
  pub once : IsDistinct s.node_raft_map
  pub in_range : (i r : ℕ) → get i s.node_raft_map ≡ some r → (0 < r) × (r ≤ s.raft_id_counter)
  pub distinct :
      (i j r : ℕ) → get i s.node_raft_map ≡ some r → get j s.node_raft_map ≡ some r → i ≡ j

same-RaftInv :
    (n : ℕ) (s t : MetadataState)
    → RaftInv n s
    → t.raft_id_counter ≡ s.raft_id_counter
    → t.node_raft_map ≡ s.node_raft_map
    → RaftInv (suc n) t
same-RaftInv n s t inv counter ids = record {
  counted = omega (arith, inv.counted);
  once = rw ids inv.once;
  in_range = λ i r h. ground (arith, inv.in_range i r, ids, counter);
  distinct = λ i j r hi hj. inv.distinct i j r (rw ids at hi) (rw ids at hj);
}

module _ (to_string : ℕ → String) where
  register-RaftInv :
      (n : ℕ) (s : MetadataState) (node_id : ℕ) (addr : String) (o : Option ℕ)
      → suc n < u64_mod
      → RaftInv n s
      → Keeps (RaftInv (suc n)) (register to_string node_id addr o s)
  unfolding register put_node
  register-RaftInv n s node_id addr (some r) fits inv = same-RaftInv n s _ inv refl refl
  register-RaftInv n s node_id addr none fits inv =
      let id : ℕ = wrapping_add s.raft_id_counter 1 in
      let step : id ≡ s.raft_id_counter + 1 = ground (arith, inv.counted) in
      record {
        counted = ground (arith, inv.counted, step);
        once = insert-IsDistinct node_id id s.node_raft_map inv.once;
        in_range = λ i r h.
            ground (arith, step, get-insert node_id i id s.node_raft_map, inv.in_range i r);
        distinct = λ i j r hi hj. ground (
          arith,
          step,
          get-insert node_id i id s.node_raft_map,
          get-insert node_id j id s.node_raft_map,
          inv.in_range i r,
          inv.in_range j r,
          inv.distinct i j r,
        );
      }

  mapping-RaftInv :
      (req : MetadataRequest) (n : ℕ) (s : MetadataState)
      → IsMapping req
      → RaftInv n s
      → Keeps (RaftInv (suc n)) (apply_request to_string req s)
  mapping-RaftInv req n s one inv =
      Keeps-mono (SameRest s) (RaftInv (suc n)) (apply_request to_string req s)
        (λ t same. same-RaftInv n s t inv same.2 same.3) (request-SameRest to_string req s one)

  request-RaftInv :
      (req : MetadataRequest) (n : ℕ) (s : MetadataState)
      → suc n < u64_mod
      → RaftInv n s
      → Keeps (RaftInv (suc n)) (apply_request to_string req s)
  unfolding apply_request set_usage cleanup_expired
  request-RaftInv (MetadataRequest.lease r) n s fits inv =
      rw (lease-frame to_string r s) (same-RaftInv n s _ inv refl refl)
  request-RaftInv (delete_volume v) n s fits inv =
      Keeps-mono _ (RaftInv (suc n)) (delete to_string v s)
        (λ t rest. same-RaftInv n s t inv rest.2 rest.3) (delete-rest to_string v s)
  request-RaftInv (cleanup_expired_leases now) n s fits inv = same-RaftInv n s _ inv refl refl
  request-RaftInv (register_node node_id addr) n s fits inv =
      register-RaftInv n s node_id addr (get node_id s.node_raft_map) fits inv
  request-RaftInv (register_disk d i c) n s fits inv = same-RaftInv n s _ inv refl refl
  request-RaftInv (update_disk_usage d u) n s fits inv =
      elim (Option-cases (get d s.cluster_disks)) [
        | inl e ↦ rw (e, set_usage) (same-RaftInv n s _ inv refl refl)
        | inr (i, e) ↦ rw (e, set_usage) (same-RaftInv n s _ inv refl refl)
      ]
  request-RaftInv (deregister_disk d) n s fits inv =
      elim (Bool-cases (contains_key d s.cluster_disks)) [
        | inl e ↦ rw e (same-RaftInv n s _ inv refl refl)
        | inr e ↦ rw e (same-RaftInv n s _ inv refl refl)
      ]
  request-RaftInv req n s fits inv = mapping-RaftInv req n s tt inv

  reached :
      (log : List MetadataRequest) (s : MetadataState)
      → length log < u64_mod
      → replay to_string log initial ≡ some s
      → RaftInv (length log) s
  unfolding get
  reached log s short e = rw e at (
      replay-from_zero to_string RaftInv (request-RaftInv) log initial short (record {
        counted = omega arith;
        once = tt;
        in_range = λ i r h. cc;
        distinct = λ i j r hi hj. cc;
      }))

  find_id-hit : (r : ℕ) (m : Map ℕ ℕ) (i : ℕ) → get i m ≡ some r → (j : ℕ) × (find_id r m ≡ some j)
  unfolding find_id get
  find_id-hit r [] i h = cc
  find_id-hit r ((k, v) ∷ m) i h = elim (Bool-cases (nat_eq v r)) [
    | inl here ↦ (k, rw here)
    | inr there ↦ let (j, e) = find_id-hit r m i (ground arith) in (j, rw there e)
  ]

  find_id-get :
      (r : ℕ) (m : Map ℕ ℕ) (j : ℕ) → IsDistinct m → find_id r m ≡ some j → get j m ≡ some r
  unfolding find_id get
  find_id-get r [] j d h = cc
  find_id-get r ((k, v) ∷ m) j d h = elim (Bool-cases (nat_eq v r)) [
    | inl here ↦ ground arith
    | inr there ↦ ground (arith, find_id-get r m j d.1)
  ]

  -- After any log of fewer than 2^64 requests, the id of a node is a number from 1 to the length
  -- of the log, and to look the node up by its id gives that node back.
  pub raft_id-roundtrip :
      (log : List MetadataRequest) (s : MetadataState) (node_id raft_id : ℕ)
      → length log < u64_mod
      → replay to_string log initial ≡ some s
      → get_raft_id s node_id ≡ some raft_id
      → (0 < raft_id) × (raft_id ≤ length log) × (get_node_id_by_raft_id s raft_id ≡ some node_id)
  unfolding get_raft_id get_node_id_by_raft_id
  raft_id-roundtrip log s node_id raft_id short e h =
      let inv = reached log s short e in
      let (low, high) = inv.in_range node_id raft_id h in
      let (j, found) = find_id-hit raft_id s.node_raft_map node_id h in
      let same : j ≡ node_id =
        inv.distinct j node_id raft_id (find_id-get raft_id s.node_raft_map j inv.once found) h in
      (low, omega (arith, inv.counted), rw (← same) found)

  permanent-step :
      (node_id raft_id : ℕ) (req : MetadataRequest) (s : MetadataState)
      → get node_id s.node_raft_map ≡ some raft_id
      → Keeps (λ t. get node_id t.node_raft_map ≡ some raft_id) (apply_request to_string req s)
  unfolding apply_request set_usage cleanup_expired register put_node
  permanent-step i r (MetadataRequest.lease q) s h = rw (lease-frame to_string q s) h
  permanent-step i r (delete_volume v) s h =
      Keeps-mono _ (λ t. get i t.node_raft_map ≡ some r) (delete to_string v s)
        (λ t rest. rw rest.3 h) (delete-rest to_string v s)
  permanent-step i r (cleanup_expired_leases now) s h = h
  permanent-step i r (register_node node_id addr) s h =
      ground (arith, get-insert node_id i (wrapping_add s.raft_id_counter 1) s.node_raft_map)
  permanent-step i r (register_disk d n c) s h = h
  permanent-step i r (update_disk_usage d u) s h = ground arith
  permanent-step i r (deregister_disk d) s h = ground arith
  permanent-step i r req s h =
      Keeps-mono (SameRest s) (λ t. get i t.node_raft_map ≡ some r) (apply_request to_string req s)
        (λ t same. rw same.3 h) (request-SameRest to_string req s tt)

  -- Once a node has an id, it keeps it over any log, also when it is removed and registered again.
  pub raft_id-permanent :
      (log : List MetadataRequest) (s s' : MetadataState) (node_id raft_id : ℕ)
      → get_raft_id s node_id ≡ some raft_id
      → replay to_string log s ≡ some s'
      → get_raft_id s' node_id ≡ some raft_id
  unfolding get_raft_id
  raft_id-permanent log s s' node_id raft_id h e = rw e at (
      replay-Keeps to_string (λ t. get node_id t.node_raft_map ≡ some raft_id)
        (permanent-step node_id raft_id) log s h)
