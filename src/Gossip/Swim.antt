-- ===== src/Gossip/Swim.antt =====
-- crates/blockyard-gossip/src/swim.rs, and the messages of protocol.rs. A step returns the messages
-- that it sends, each with its destination; whether a send fails changes nothing in the source.
use blockyard.Common.{
  ℕ-eq, ℕ, zero, suc, ◌-◌, ◌%◌, ◌*◌, ◌/◌, ◌≡◌, Bool, true, false, ◌&&◌, Option, none, some, List,
  [], ◌∷◌, keep, leb, nat_eq, if◌then◌else◌, length, wrapping_add,
}
use blockyard.Common.Maps.{Map, get, insert, remove}
use blockyard.Gossip.Members.{
  alive, suspect, dead, same_state, MembershipUpdate, Member, MemberList, apply_update,
  apply_updates, recent_updates, probe_targets, indirect_probe_candidates, mark_suspect, mark_dead,
  take,
}

pub data GossipMessage : Type 0 where
  ping : ℕ → ℕ → ℕ → List MembershipUpdate → GossipMessage
  ping_req : ℕ → ℕ → ℕ → ℕ → ℕ → List MembershipUpdate → GossipMessage
  ack : ℕ → ℕ → ℕ → List MembershipUpdate → GossipMessage
  join : ℕ → ℕ → GossipMessage
  alive_claim suspect_claim dead_claim : ℕ → ℕ → ℕ → GossipMessage

abbrev pub updates : GossipMessage → List MembershipUpdate
updates (ping from from_addr seq us) = us
updates (ping_req from from_addr target target_addr seq us) = us
updates (ack from from_addr seq us) = us
updates _ = []

abbrev pub indirect_probe_count : ℕ
indirect_probe_count = 3

abbrev pub max_piggyback_updates : ℕ
max_piggyback_updates = 10

pub record SwimConfig : Type 0 where
  pub gossip_interval : ℕ
  pub suspicion_timeout : ℕ
  pub probe_timeout : ℕ

unfoldable pub new_config : ℕ → ℕ → SwimConfig
new_config gossip_interval_ms suspicion_mult = record {
  gossip_interval = gossip_interval_ms;
  suspicion_timeout = gossip_interval_ms * suspicion_mult;
  probe_timeout = gossip_interval_ms / 2;
}

pub record PendingProbe : Type 0 where
  pub target : ℕ
  pub indirect_sent : Bool

pub record SwimProtocol : Type 0 where
  pub members : MemberList
  pub config : SwimConfig
  pub seq : ℕ
  pub pending_probes : Map ℕ PendingProbe

abbrev pub new : MemberList → SwimConfig → SwimProtocol
new members config = record { members = members; config = config; seq = 0; pending_probes = [] }

-- Messages with the addresses that they are sent to.
abbrev pub Sent : Type 0
Sent = List (GossipMessage × ℕ)

abbrev pub nth {ℓ} : {A : Type ℓ} → List A → ℕ → Option A
nth [] i = none
nth (x ∷ xs) zero = some x
nth (x ∷ xs) (suc i) = nth xs i

unfoldable pub next_seq : SwimProtocol → SwimProtocol
next_seq p = record p { seq = wrapping_add p.seq 1 }

-- What `probe_cycle` does with the target that the first sequence number picks, up to the wait.
unfoldable pub ping_target : ℕ → Option Member → SwimProtocol → SwimProtocol × Sent
unfolding next_seq
ping_target local_addr none p = (p, [])
ping_target local_addr (some target) p =
    let q = next_seq p in
    (
      record q {
        pending_probes =
            insert q.seq (record { target = target.node_id; indirect_sent = false })
              q.pending_probes;
      },
      (
        ping q.members.local_id local_addr q.seq (recent_updates max_piggyback_updates q.members),
        target.addr,
      )
          ∷ [],
    )

unfoldable pub probe_begin : ℕ → SwimProtocol → SwimProtocol × Sent
unfolding ping_target
probe_begin local_addr p = elim (probe_targets p.members) [
  | [] ↦ (p, [])
  | t ∷ ts ↦ let q = next_seq p in ping_target local_addr (nth (t ∷ ts) (q.seq % length (t ∷ ts))) q
]

unfoldable pub note_indirect : ℕ → Option PendingProbe → SwimProtocol → SwimProtocol
note_indirect seq none p = p
note_indirect seq (some probe) p = record p {
  pending_probes = insert seq (record probe { indirect_sent = true }) p.pending_probes;
}

unfoldable pub ping_reqs : ℕ → ℕ → ℕ → ℕ → SwimProtocol → List Member → Sent
ping_reqs local_addr target target_addr seq p [] = []
ping_reqs local_addr target target_addr seq p (relay ∷ relays) =
    (
      ping_req p.members.local_id local_addr target target_addr seq
          (recent_updates max_piggyback_updates p.members),
      relay.addr,
    )
    ∷ ping_reqs local_addr target target_addr seq p relays

unfoldable pub send_indirect_probes : ℕ → ℕ → ℕ → ℕ → SwimProtocol → SwimProtocol × Sent
unfolding note_indirect ping_reqs
send_indirect_probes local_addr target target_addr seq p =
    elim (take indirect_probe_count (indirect_probe_candidates target p.members)) [
      | [] ↦ (p, [])
      | r ∷ rs ↦
          let q = note_indirect seq (get seq p.pending_probes) p in
          (q, ping_reqs local_addr target target_addr seq q (r ∷ rs))
    ]

-- The end of `probe_cycle`, by whether either wait has seen the acknowledgement.
unfoldable pub probe_end : ℕ → ℕ → ℕ → Bool → SwimProtocol → SwimProtocol
probe_end now target seq acked p = record p {
  members = if acked then p.members else (mark_suspect now target p.members).0;
  pending_probes = remove seq p.pending_probes;
}

unfoldable pub tell : ℕ → MembershipUpdate → SwimProtocol → SwimProtocol
tell now u p = record p { members = (apply_update now u p.members).0 }

-- The `match` of `handle_message`, once the piggybacked updates are applied.
unfoldable pub dispatch : ℕ → ℕ → GossipMessage → SwimProtocol → SwimProtocol × Sent
unfolding tell
dispatch now local_addr (ping from from_addr seq us) p = (
  p,
  (
    ack p.members.local_id local_addr seq (recent_updates max_piggyback_updates p.members),
    from_addr,
  )
      ∷ [],
)
dispatch now local_addr (ping_req from from_addr target target_addr seq us) p = (
  p,
  (
    ping p.members.local_id local_addr seq (recent_updates max_piggyback_updates p.members),
    target_addr,
  )
      ∷ [],
)
dispatch now local_addr (ack from from_addr seq us) p =
    (record p { pending_probes = remove seq p.pending_probes }, [])
dispatch now local_addr (join node_id addr) p =
    let q =
      tell now (record { node_id = node_id; addr = addr; state = alive; incarnation = 0 }) p in
    (
      q,
      (ack q.members.local_id local_addr 0 (recent_updates max_piggyback_updates q.members), addr)
          ∷ [],
    )
dispatch now local_addr (alive_claim node_id addr i) p =
    (tell now (record { node_id = node_id; addr = addr; state = alive; incarnation = i }) p, [])
dispatch now local_addr (suspect_claim node_id addr i) p =
    (tell now (record { node_id = node_id; addr = addr; state = suspect; incarnation = i }) p, [])
dispatch now local_addr (dead_claim node_id addr i) p =
    (tell now (record { node_id = node_id; addr = addr; state = dead; incarnation = i }) p, [])

unfoldable pub handle_message : ℕ → ℕ → GossipMessage → SwimProtocol → SwimProtocol × Sent
unfolding dispatch
handle_message now local_addr msg p =
    dispatch now local_addr msg (record p { members = apply_updates now (updates msg) p.members })

-- The suspects that have been so for as long as the timeout.
unfoldable pub overdue : ℕ → SwimProtocol → List Member
overdue now p =
    keep
      (λ (m : Member).
        same_state m.state suspect && leb p.config.suspicion_timeout (now - m.state_change))
      (probe_targets p.members)

unfoldable pub mark_all_dead : ℕ → List Member → MemberList → MemberList
mark_all_dead now [] l = l
mark_all_dead now (m ∷ ms) l = mark_all_dead now ms (mark_dead now m.node_id l).0

unfoldable pub reap_suspects : ℕ → SwimProtocol → SwimProtocol
unfolding overdue mark_all_dead
reap_suspects now p = record p { members = mark_all_dead now (overdue now p) p.members }

unfoldable pub join_seeds : ℕ → List ℕ → SwimProtocol → Sent
join_seeds local_addr [] p = []
join_seeds local_addr (seed ∷ seeds) p =
    if nat_eq seed local_addr
    then join_seeds local_addr seeds p
    else (join p.members.local_id local_addr, seed) ∷ join_seeds local_addr seeds p

-- What a node does: it asks seeds to let it join, starts a probe, relays it after the first wait, ends it, takes a message, or
-- looks for overdue suspects. A probe is of another node.
pub data Step (p : SwimProtocol) : SwimProtocol → Sent → Type 0 where
  joins : (local_addr : ℕ) (seeds : List ℕ) → Step p p (join_seeds local_addr seeds p)
  begins : (local_addr : ℕ) → Step p (probe_begin local_addr p).0 (probe_begin local_addr p).1
  relays :
      (local_addr target target_addr seq : ℕ)
      → Step p
          (send_indirect_probes local_addr target target_addr seq p).0
          (send_indirect_probes local_addr target target_addr seq p).1
  ends :
      (now target seq : ℕ) (acked : Bool)
      → nat_eq target p.members.local_id ≡ false
      → Step p (probe_end now target seq acked p) []
  takes :
      (now local_addr : ℕ) (msg : GossipMessage)
      → Step p (handle_message now local_addr msg p).0 (handle_message now local_addr msg p).1
  reaps : (now : ℕ) → Step p (reap_suspects now p) []
