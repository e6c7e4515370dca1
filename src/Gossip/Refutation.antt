-- ===== src/Gossip/Refutation.antt =====
-- What a node says of itself (crates/blockyard-gossip/src/member.rs and swim.rs).
mod SelfReports
pub mod Lives
use mathlib.Core.Path.{subst}
use blockyard.Common.{
  ℕ-eq, ℕ, suc, ◌≡◌, ◌≤◌, ◌⊎◌, inl, inr, refl, sym, ◌∙◌, Bool, true, false, Option, none, some,
  List, [], ◌∷◌, nat_eq, if◌then◌else◌, arith, All, max, Bool-cases,
}
use blockyard.Gossip.Members as Members
use blockyard.Gossip.Members.{
  MemberState, alive, suspect, dead, MembershipUpdate, MemberList, apply_update, apply_updates,
}
use blockyard.Gossip.Convergence.{
  Claim, claim_at, rank, rank_of, rank-injective, rank-apply_update, apply_update-local,
}
use blockyard.Gossip.Swim as Swim
use blockyard.Gossip.Swim.{
  GossipMessage, ping, ping_req, ack, join, alive_claim, suspect_claim, dead_claim, updates,
  SwimConfig, SwimProtocol, Sent, Step, tell, dispatch, handle_message,
}
use blockyard.Gossip.Refutation.SelfReports.{SaysNothing}
use blockyard.Gossip.Refutation.Lives.{Life, Quiet, Step-Tame, Life-Tame}

quiet_rank :
    (k : ℕ) (u : MembershipUpdate) (c : Claim)
    → SaysNothing k u
    → (if nat_eq u.node_id k then max (rank (some c)) (rank_of u) else rank (some c))
      ≡ rank (some c)
quiet_rank k u c (inl e) = ground arith
quiet_rank k u c (inr (s, i)) = rw (s, i) (ground arith)

unheard :
    (now k : ℕ) (c : Claim) (us : List MembershipUpdate) (l : MemberList)
    → nat_eq k l.local_id ≡ false
    → claim_at k l ≡ some c
    → All (SaysNothing k) us
    → claim_at k (apply_updates now us l) ≡ some c
unfolding apply_updates
unheard now k c [] l other h ss = h
unheard now k c (u ∷ us) l other h (s, ss) =
    let raised = rank-apply_update now k u l other in
    let kept =
      rank-injective (claim_at k (apply_update now u l).0) (some c)
        (raised ∙ (rw h (quiet_rank k u c s))) in
    unheard now k c us (apply_update now u l).0 (rw (apply_update-local now u l) other) kept ss

-- A message is among those sent.
abbrev pub SentTo : GossipMessage → ℕ → Sent → Type 0
SentTo msg to [] = ⊥
SentTo msg to (s ∷ ss) = (s ≡ (msg, to)) ⊎ SentTo msg to ss

Quiet-heard :
    (now a k : ℕ) (c : Claim) (msg : GossipMessage) (to : ℕ) (r : SwimProtocol)
    → nat_eq k r.members.local_id ≡ false
    → claim_at k r.members ≡ some c
    → Quiet k (msg, to)
    → claim_at k (handle_message now a msg r).0.members ≡ some c
unfolding handle_message dispatch tell apply_updates
Quiet-heard now a k c (ping from from_addr seq us) to r other h quiet =
    unheard now k c us r.members other h quiet
Quiet-heard now a k c (ping_req from from_addr target target_addr seq us) to r other h quiet =
    unheard now k c us r.members other h quiet
Quiet-heard now a k c (ack from from_addr seq us) to r other h quiet =
    unheard now k c us r.members other h quiet
Quiet-heard now a k c (join node_id addr) to r other h quiet =
    let u : MembershipUpdate = record {
      node_id = node_id;
      addr = addr;
      state = alive;
      incarnation = 0;
    } in
    unheard now k c (u ∷ []) r.members other h (inr (refl, refl), tt)
Quiet-heard now a k c (alive_claim node_id addr i) to r other h quiet = absurd quiet
Quiet-heard now a k c (suspect_claim node_id addr i) to r other h quiet = absurd quiet
Quiet-heard now a k c (dead_claim node_id addr i) to r other h quiet = absurd quiet

sent-Quiet :
    (k : ℕ) (msg : GossipMessage) (to : ℕ) (sent : Sent)
    → All (Quiet k) sent
    → SentTo msg to sent
    → Quiet k (msg, to)
sent-Quiet k msg to [] qs m = absurd m
sent-Quiet k msg to (s ∷ ss) (q, qs) (inl e) = subst (Quiet k) e q
sent-Quiet k msg to (s ∷ ss) (q, qs) (inr m) = sent-Quiet k msg to ss qs m

-- No message that a node sends in the course of its life, a request to join among them, changes what another node's table says of
-- it, once that table says anything of it: a node that is suspected or declared dead elsewhere does
-- not clear itself.
pub Life-unheard :
    (k addr born now a to : ℕ) (config : SwimConfig) (p q r : SwimProtocol) (sent : Sent)
    (msg : GossipMessage) (c : Claim)
    → Life (Swim.new (Members.new k addr born) config) p
    → Step p q sent
    → SentTo msg to sent
    → nat_eq k r.members.local_id ≡ false
    → claim_at k r.members ≡ some c
    → claim_at k (handle_message now a msg r).0.members ≡ some c
Life-unheard k addr born now a to config p q r sent msg c life step m other h =
    let fresh = Swim.new (Members.new k addr born) config in
    let tame = Life-Tame k fresh p life (refl, ((refl, inr (refl, refl)), tt)) in
    let (_, quiet) = Step-Tame k p q sent step tame in
    Quiet-heard now a k c msg to r other h (sent-Quiet k msg to sent quiet m)
