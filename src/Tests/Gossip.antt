-- ===== src/Tests/Gossip.antt =====
-- The theorems about the gossip of two nodes.
use blockyard.Common.{ℕ-eq, ◌≡◌, inl, inr, refl, some, [], ◌∷◌}
use blockyard.Common.Maps.{get, values}
use blockyard.Gossip.Members as Members
use blockyard.Gossip.Members.{
  MembershipUpdate, MemberList, alive, suspect, dead, apply_update, apply_updates,
  handle_local_update, next_incarnation, recent_updates, by_incarnation, place,
}
use blockyard.Gossip.Convergence.{claim_at, Among, apply_updates-agree}
use blockyard.Gossip.Swim as Swim
use blockyard.Gossip.Swim.{
  SwimConfig, SwimProtocol, GossipMessage, ack, ping, handle_message, dispatch, takes, Step, Sent,
}
use blockyard.Gossip.Refutation.{SentTo, Life-unheard}
use blockyard.Gossip.Refutation.Lives.{start}

abbrev suspicion : MembershipUpdate
suspicion = record { node_id = 2; addr = 20; state = suspect; incarnation = 0 }

abbrev death : MembershipUpdate
death = record { node_id = 2; addr = 20; state = dead; incarnation = 0 }

abbrev table : MemberList
table = Members.new 1 10 0

abbrev other_table : MemberList
other_table = Members.new 3 30 5

to_others :
    (u : MembershipUpdate)
    → Among u (suspicion ∷ death ∷ [])
    → Among u (death ∷ suspicion ∷ death ∷ [])
to_others u (inl e) = inr (inl e)
to_others u (inr (inl e)) = inl e
to_others u (inr (inr m)) = absurd m

from_others :
    (u : MembershipUpdate)
    → Among u (death ∷ suspicion ∷ death ∷ [])
    → Among u (suspicion ∷ death ∷ [])
from_others u (inl e) = inr (inl e)
from_others u (inr (inl e)) = inl e
from_others u (inr (inr (inl e))) = inr (inl e)
from_others u (inr (inr (inr m))) = absurd m

apply_updates-agree_example :
    claim_at 2 (apply_updates 7 (suspicion ∷ death ∷ []) table)
    ≡ claim_at 2 (apply_updates 9 (death ∷ suspicion ∷ death ∷ []) other_table)
unfolding get
apply_updates-agree_example =
    apply_updates-agree 7 9 2 (suspicion ∷ death ∷ []) (death ∷ suspicion ∷ death ∷ []) table
      other_table refl refl to_others from_others refl

abbrev config : SwimConfig
config = record { gossip_interval = 1000; suspicion_timeout = 5000; probe_timeout = 500 }

-- Node 2, whom node 1 suspects and tells so.
abbrev node_2 : SwimProtocol
node_2 = Swim.new (Members.new 2 20 0) config

abbrev told : GossipMessage
told = ping 1 10 1 (suspicion ∷ [])

abbrev suspecting : SwimProtocol
suspecting =
    Swim.new
      (record {
        local_id = 1;
        members =
            (
              2,
              record { node_id = 2; addr = 20; state = suspect; incarnation = 0; state_change = 3 },
            )
            ∷ [];
        incarnation = 0;
      })
      config

abbrev answers : Sent
answers = (handle_message 4 20 told node_2).1

abbrev answer : GossipMessage
answer = ack 2 20 1 ((record { node_id = 2; addr = 20; state = alive; incarnation = 0 }) ∷ [])

answer-SentTo : SentTo answer 10 answers
unfolding handle_message dispatch apply_updates apply_update handle_local_update next_incarnation
    recent_updates by_incarnation place values
answer-SentTo = inl refl

Life-unheard_example :
    claim_at 2 (handle_message 5 10 answer suspecting).0.members ≡ some (suspect, 0)
unfolding get
Life-unheard_example =
    Life-unheard 2 20 0 5 10 10 config node_2 (handle_message 4 20 told node_2).0 suspecting answers
      answer (suspect, 0) start (takes 4 20 told) answer-SentTo refl refl
