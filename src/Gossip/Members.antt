-- ===== src/Gossip/Members.antt =====
-- crates/blockyard-gossip/src/member.rs, and the updates of protocol.rs. An address is the number of
-- its text, and an instant is a number of milliseconds, which the operations get as `now`.
use blockyard.Common.{
  ℕ-eq, ℕ, zero, suc, Bool, true, false, not, ◌&&◌, Option, none, some, List, [], ◌∷◌, map, keep,
  ltb, nat_eq, if◌then◌else◌, wrapping_add,
}
use blockyard.Common.Maps.{Map, get, insert, values}

pub data MemberState : Type 0 where
  alive suspect dead : MemberState

abbrev pub same_state : MemberState → MemberState → Bool
same_state alive alive = true
same_state suspect suspect = true
same_state dead dead = true
same_state _ _ = false

pub record MembershipUpdate : Type 0 where
  pub node_id : ℕ
  pub addr : ℕ
  pub state : MemberState
  pub incarnation : ℕ

pub record Member : Type 0 where
  pub node_id : ℕ
  pub addr : ℕ
  pub state : MemberState
  pub incarnation : ℕ
  pub state_change : ℕ

pub record MemberList : Type 0 where
  pub local_id : ℕ
  pub members : Map ℕ Member
  pub incarnation : ℕ

-- `Member::with_state` of an update.
abbrev pub with_state : MembershipUpdate → ℕ → Member
with_state u now = record {
  node_id = u.node_id;
  addr = u.addr;
  state = u.state;
  incarnation = u.incarnation;
  state_change = now;
}

abbrev pub new_member : ℕ → ℕ → ℕ → Member
new_member node_id addr now = record {
  node_id = node_id;
  addr = addr;
  state = alive;
  incarnation = 0;
  state_change = now;
}

abbrev pub to_update : Member → MembershipUpdate
to_update m = record {
  node_id = m.node_id;
  addr = m.addr;
  state = m.state;
  incarnation = m.incarnation;
}

abbrev pub new : ℕ → ℕ → ℕ → MemberList
new local_id local_addr now = record {
  local_id = local_id;
  members = (local_id, new_member local_id local_addr now) ∷ [];
  incarnation = 0;
}

unfoldable pub next_incarnation : MemberList → MemberList
next_incarnation l = record l { incarnation = wrapping_add l.incarnation 1 }

unfoldable pub alive_members : MemberList → List Member
alive_members l = keep (λ (m : Member). not (same_state m.state dead)) (values l.members)

unfoldable pub probe_targets : MemberList → List Member
probe_targets l =
    keep (λ (m : Member). not (nat_eq m.node_id l.local_id) && not (same_state m.state dead))
      (values l.members)

unfoldable pub indirect_probe_candidates : ℕ → MemberList → List Member
indirect_probe_candidates exclude l =
    keep
      (λ (m : Member).
        not (nat_eq m.node_id l.local_id)
        && (not (nat_eq m.node_id exclude) && same_state m.state alive))
      (values l.members)

abbrev pub state_priority : MemberState → ℕ
state_priority alive = 0
state_priority suspect = 1
state_priority dead = 2

unfoldable pub should_override : Member → MembershipUpdate → Bool
should_override existing u =
    if ltb existing.incarnation u.incarnation
    then true
    else if ltb u.incarnation existing.incarnation
    then false
    else ltb (state_priority existing.state) (state_priority u.state)

unfoldable pub handle_local_update : MembershipUpdate → MemberList → MemberList
unfolding next_incarnation
handle_local_update u l = elim u.state [
  | suspect ↦ next_incarnation l
  | dead ↦ next_incarnation l
  | alive ↦ l
]

-- Whether an update is new to what the table has of its node.
unfoldable pub is_news : Option Member → MembershipUpdate → Bool
unfolding should_override
is_news none u = true
is_news (some existing) u = should_override existing u

-- Whether the state of the member is another than before: what `apply_update` returns.
unfoldable pub is_changed : Option Member → MembershipUpdate → Bool
is_changed none u = true
is_changed (some existing) u = not (same_state existing.state u.state)

unfoldable pub apply_update : ℕ → MembershipUpdate → MemberList → MemberList × Bool
unfolding handle_local_update is_news is_changed
apply_update now u l =
    if nat_eq u.node_id l.local_id
    then (handle_local_update u l, false)
    else if is_news (get u.node_id l.members) u
    then (
      record l { members = insert u.node_id (with_state u now) l.members },
      is_changed (get u.node_id l.members) u,
    )
    else (l, false)

unfoldable pub apply_updates : ℕ → List MembershipUpdate → MemberList → MemberList
unfolding apply_update
apply_updates now [] l = l
apply_updates now (u ∷ us) l = apply_updates now us (apply_update now u l).0

-- `get_mut` of the entry, and the change of its state.
unfoldable pub set_state : ℕ → ℕ → MemberState → Member → MemberList → MemberList
set_state now node_id state m l = record l {
  members = insert node_id (record m { state = state; state_change = now }) l.members;
}

unfoldable pub suspect_found : ℕ → ℕ → Option Member → MemberList → MemberList × Bool
unfolding set_state
suspect_found now node_id none l = (l, false)
suspect_found now node_id (some m) l =
    if same_state m.state alive then (set_state now node_id suspect m l, true) else (l, false)

unfoldable pub mark_suspect : ℕ → ℕ → MemberList → MemberList × Bool
unfolding suspect_found
mark_suspect now node_id l = suspect_found now node_id (get node_id l.members) l

unfoldable pub dead_found : ℕ → ℕ → Option Member → MemberList → MemberList × Bool
unfolding set_state
dead_found now node_id none l = (l, false)
dead_found now node_id (some m) l =
    if same_state m.state dead then (l, false) else (set_state now node_id dead m l, true)

unfoldable pub mark_dead : ℕ → ℕ → MemberList → MemberList × Bool
unfolding dead_found
mark_dead now node_id l = dead_found now node_id (get node_id l.members) l

abbrev pub take {ℓ} : {A : Type ℓ} → ℕ → List A → List A
take zero xs = []
take (suc n) [] = []
take (suc n) (x ∷ xs) = x ∷ take n xs

-- The stable sort by falling incarnation.
unfoldable pub place : MembershipUpdate → List MembershipUpdate → List MembershipUpdate
place u [] = u ∷ []
place u (v ∷ vs) = if ltb u.incarnation v.incarnation then v ∷ place u vs else u ∷ v ∷ vs

unfoldable pub by_incarnation : List MembershipUpdate → List MembershipUpdate
unfolding place
by_incarnation [] = []
by_incarnation (u ∷ us) = place u (by_incarnation us)

unfoldable pub recent_updates : ℕ → MemberList → List MembershipUpdate
unfolding by_incarnation
recent_updates max_count l = take max_count (by_incarnation (map to_update (values l.members)))
