-- ===== src/Gossip/Refutation/Lives.antt =====
-- Through all that a node does its table stays tame, and its messages quiet
-- (crates/blockyard-gossip/src/member.rs and swim.rs).
use blockyard.Common.{
  ℕ-eq, ℕ, ◌%◌, length, ◌≡◌, inl, inr, refl, Bool, true, false, Option, none, some, List, [], ◌∷◌,
  nat_eq, not, ◌&&◌, keep, Bool-cases, arith, All,
}
use blockyard.Common.Maps.{get}
use blockyard.Gossip.Members.{
  alive, dead, same_state, MembershipUpdate, Member, MemberList, apply_updates, probe_targets,
  recent_updates, take, indirect_probe_candidates,
}
use blockyard.Gossip.Swim.{
  GossipMessage, ping, ping_req, ack, join, alive_claim, suspect_claim, dead_claim, updates,
  PendingProbe, SwimProtocol, Sent, Step, joins, begins, relays, ends, takes, reaps, nth,
  probe_begin, ping_target, next_seq, note_indirect, ping_reqs, send_indirect_probes, probe_end,
  tell, dispatch, handle_message, overdue, mark_all_dead, reap_suspects, join_seeds,
  indirect_probe_count,
}
use blockyard.Gossip.Refutation.SelfReports.{
  SaysNothing, Tame, apply_updates-Tame, apply_update-Tame, mark_suspect-Tame, mark_dead-Tame,
  recent_updates-SaysNothing,
}

-- The life of a node: steps, whatever comes in and whatever it sends.
pub data Life (p : SwimProtocol) : SwimProtocol → Type 0 where
  start : Life p p
  next : {q r : SwimProtocol} {sent : Sent} → Life p q → Step q r sent → Life p r

-- A message that carries nothing new about a node, and is not a claim. What a request to join says is
-- what a table starts with.
abbrev pub Quiet : ℕ → GossipMessage × ℕ → Type 0
Quiet k (ping from from_addr seq us, to) = All (SaysNothing k) us
Quiet k (ping_req from from_addr target target_addr seq us, to) = All (SaysNothing k) us
Quiet k (ack from from_addr seq us, to) = All (SaysNothing k) us
Quiet k (join node_id addr, to) = Unit
Quiet k (alive_claim node_id addr i, to) = ⊥
Quiet k (suspect_claim node_id addr i, to) = ⊥
Quiet k (dead_claim node_id addr i, to) = ⊥

module _ (k : ℕ) where
  recent : (p : SwimProtocol) → Tame k p.members → All (SaysNothing k) (recent_updates 10 p.members)
  recent p t = recent_updates-SaysNothing k 10 p.members t

  dispatch-Tame :
      (now local_addr : ℕ) (msg : GossipMessage) (p : SwimProtocol)
      → Tame k p.members
      → Tame k (dispatch now local_addr msg p).0.members
        × All (Quiet k) (dispatch now local_addr msg p).1
  unfolding dispatch tell
  dispatch-Tame now a (ping from from_addr seq us) p t = (t, (recent p t, tt))
  dispatch-Tame now a (ping_req from from_addr target target_addr seq us) p t =
      (t, (recent p t, tt))
  dispatch-Tame now a (ack from from_addr seq us) p t = (t, tt)
  dispatch-Tame now a (join node_id addr) p t =
      let u : MembershipUpdate = record {
        node_id = node_id;
        addr = addr;
        state = alive;
        incarnation = 0;
      } in
      let t' = apply_update-Tame now k u p.members t in (t', (recent (tell now u p) t', tt))
  dispatch-Tame now a (alive_claim node_id addr i) p t = (apply_update-Tame now k _ p.members t, tt)
  dispatch-Tame now a (suspect_claim node_id addr i) p t =
      (apply_update-Tame now k _ p.members t, tt)
  dispatch-Tame now a (dead_claim node_id addr i) p t = (apply_update-Tame now k _ p.members t, tt)

  ping_reqs-Quiet :
      (a target target_addr seq : ℕ) (p : SwimProtocol) (relays : List Member)
      → Tame k p.members
      → All (Quiet k) (ping_reqs a target target_addr seq p relays)
  unfolding ping_reqs
  ping_reqs-Quiet a target target_addr seq p [] t = tt
  ping_reqs-Quiet a target target_addr seq p (r ∷ rs) t =
      (recent p t, ping_reqs-Quiet a target target_addr seq p rs t)

  note_indirect-members :
      (seq : ℕ) (o : Option PendingProbe) (p : SwimProtocol)
      → (note_indirect seq o p).members ≡ p.members
  unfolding note_indirect
  note_indirect-members seq none p = refl
  note_indirect-members seq (some x) p = refl

  send_indirect_probes-Tame :
      (a target target_addr seq : ℕ) (p : SwimProtocol)
      → Tame k p.members
      → Tame k (send_indirect_probes a target target_addr seq p).0.members
        × All (Quiet k) (send_indirect_probes a target target_addr seq p).1
  unfolding send_indirect_probes
  send_indirect_probes-Tame a target target_addr seq p t =
      go (take indirect_probe_count (indirect_probe_candidates target p.members))
    where
      q : SwimProtocol
      q = note_indirect seq (get seq p.pending_probes) p

      t' : Tame k q.members
      t' = rw (note_indirect-members seq (get seq p.pending_probes) p) t

      go :
          (relays : List Member)
          → let r : SwimProtocol × Sent = elim relays [
            | [] ↦ (p, [])
            | r ∷ rs ↦ (q, ping_reqs a target target_addr seq q (r ∷ rs))
          ] in
            Tame k r.0.members × All (Quiet k) r.1
      go [] = (t, tt)
      go (r ∷ rs) = (t', ping_reqs-Quiet a target target_addr seq q (r ∷ rs) t')

  ping_target-Tame :
      (a : ℕ) (o : Option Member) (p : SwimProtocol)
      → Tame k p.members
      → Tame k (ping_target a o p).0.members × All (Quiet k) (ping_target a o p).1
  unfolding ping_target next_seq
  ping_target-Tame a none p t = (t, tt)
  ping_target-Tame a (some m) p t = (t, (recent p t, tt))

  probe_begin-Tame :
      (a : ℕ) (p : SwimProtocol)
      → Tame k p.members
      → Tame k (probe_begin a p).0.members × All (Quiet k) (probe_begin a p).1
  unfolding probe_begin next_seq
  probe_begin-Tame a p t = go (probe_targets p.members)
    where
      q : SwimProtocol
      q = next_seq p

      go :
          (ts : List Member)
          → let r : SwimProtocol × Sent = elim ts [
            | [] ↦ (p, [])
            | t ∷ ts ↦ ping_target a (nth (t ∷ ts) (q.seq % length (t ∷ ts))) q
          ] in
            Tame k r.0.members × All (Quiet k) r.1
      go [] = (t, tt)
      go (m ∷ ms) = ping_target-Tame a (nth (m ∷ ms) (q.seq % length (m ∷ ms))) q t

  probe_end-Tame :
      (now target seq : ℕ) (acked : Bool) (p : SwimProtocol)
      → nat_eq target p.members.local_id ≡ false
      → Tame k p.members
      → Tame k (probe_end now target seq acked p).members
  unfolding probe_end
  probe_end-Tame now target seq true p other t = t
  probe_end-Tame now target seq false p other t =
      mark_suspect-Tame now target k p.members (ground arith) t

  mark_all_dead-Tame :
      (now : ℕ) (ms : List Member) (l : MemberList)
      → All (λ (m : Member). nat_eq m.node_id k ≡ false) ms
      → Tame k l
      → Tame k (mark_all_dead now ms l)
  unfolding mark_all_dead
  mark_all_dead-Tame now [] l os t = t
  mark_all_dead-Tame now (m ∷ ms) l (o, os) t =
      mark_all_dead-Tame now ms _ os (mark_dead-Tame now m.node_id k l o t)

  -- Whom a node probes and declares dead.
  others :
      (p : Member → Bool) (j : ℕ) (ms : List Member)
      → j ≡ k
      → All
          (λ (m : Member). nat_eq m.node_id k ≡ false)
          (keep (λ (m : Member). not (nat_eq m.node_id j) && p m) ms)
  unfolding keep
  others p j [] same = tt
  others p j (m ∷ ms) same = elim (Bool-cases (not (nat_eq m.node_id j) && p m)) [
    | inl e ↦ rw e (ground arith, others p j ms same)
    | inr e ↦ rw e (others p j ms same)
  ]

  keep-others :
      (p : Member → Bool) (ms : List Member)
      → All (λ (m : Member). nat_eq m.node_id k ≡ false) ms
      → All (λ (m : Member). nat_eq m.node_id k ≡ false) (keep p ms)
  unfolding keep
  keep-others p [] os = tt
  keep-others p (m ∷ ms) (o, os) = elim (Bool-cases (p m)) [
    | inl e ↦ rw e (o, keep-others p ms os)
    | inr e ↦ rw e (keep-others p ms os)
  ]

  join_seeds-Quiet :
      (a : ℕ) (seeds : List ℕ) (p : SwimProtocol) → All (Quiet k) (join_seeds a seeds p)
  unfolding join_seeds
  join_seeds-Quiet a [] p = tt
  join_seeds-Quiet a (seed ∷ seeds) p = elim (Bool-cases (nat_eq seed a)) [
    | inl e ↦ rw e (join_seeds-Quiet a seeds p)
    | inr e ↦ rw e (tt, join_seeds-Quiet a seeds p)
  ]

  pub Step-Tame :
      (p q : SwimProtocol) (sent : Sent)
      → Step p q sent
      → Tame k p.members
      → Tame k q.members × All (Quiet k) sent
  unfolding handle_message reap_suspects overdue probe_targets
  Step-Tame p q sent (joins a seeds) t = (t, join_seeds-Quiet a seeds p)
  Step-Tame p q sent (begins a) t = probe_begin-Tame a p t
  Step-Tame p q sent (relays a target target_addr seq) t =
      send_indirect_probes-Tame a target target_addr seq p t
  Step-Tame p q sent (ends now target seq acked other) t =
      (probe_end-Tame now target seq acked p other t, tt)
  Step-Tame p q sent (takes now a msg) t =
      dispatch-Tame now a msg (record p { members = apply_updates now (updates msg) p.members })
        (apply_updates-Tame now k (updates msg) p.members t)
  Step-Tame p q sent (reaps now) t = (
    mark_all_dead-Tame now (overdue now p) p.members
        (keep-others _ (probe_targets p.members)
          (others (λ m. not (same_state m.state dead)) p.members.local_id _ t.0))
        t,
    tt,
  )

  pub Life-Tame : (p q : SwimProtocol) → Life p q → Tame k p.members → Tame k q.members
  Life-Tame p q start t = t
  Life-Tame p q (next {q = r} {sent = sent} life step) t =
      (Step-Tame r q sent step (Life-Tame p r life t)).0
