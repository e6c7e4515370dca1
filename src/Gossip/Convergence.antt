-- ===== src/Gossip/Convergence.antt =====
-- Members agree whatever the order in which updates reach them (crates/blockyard-gossip/src/member.rs).
use blockyard.Common.{
  ℕ-eq, ℕ, suc, ◌≡◌, ◌+◌, ◌*◌, ◌≤◌, ◌<◌, ◌↔◌, ◌⊎◌, inl, inr, refl, ◌∙◌, max, true, false, Option,
  none, some, List, [], ◌∷◌, All, ap, nat_eq, if◌then◌else◌, arith, Bool-cases,
}
use blockyard.Common.Highest.{Below, highest, highest-above, highest-least}
use blockyard.Common.Maps.{get, get-insert}
use blockyard.Gossip.Members.{
  MemberState, alive, suspect, dead, MembershipUpdate, Member, MemberList, state_priority,
  should_override, is_news, apply_update, apply_updates, handle_local_update, with_state,
}

-- What a table says of a node, but for its address and the time of the change.
abbrev pub Claim : Type 0
Claim = MemberState × ℕ

abbrev claim_of : Option Member → Option Claim
claim_of none = none
claim_of (some m) = some (m.state, m.incarnation)

abbrev pub claim_at : ℕ → MemberList → Option Claim
claim_at k l = claim_of (get k l.members)

-- Claims in the order in which they override one another; nothing comes before all of them.
abbrev pub rank : Option Claim → ℕ
rank none = 0
rank (some (state, incarnation)) = suc (state_priority state + 3 * incarnation)

pub rank-injective : (a b : Option Claim) → rank a ≡ rank b → a ≡ b
rank-injective none none h = refl
rank-injective none (some (t, j)) h = absurd (omega arith)
rank-injective (some (s, i)) none h = absurd (omega arith)
rank-injective (some (alive, i)) (some (t, j)) h = ground arith
rank-injective (some (suspect, i)) (some (t, j)) h = ground arith
rank-injective (some (dead, i)) (some (t, j)) h = ground arith

abbrev pub rank_of : MembershipUpdate → ℕ
rank_of u = rank (some (u.state, u.incarnation))

state_priority-le : (s : MemberState) → state_priority s ≤ 2
state_priority-le alive = omega arith
state_priority-le suspect = omega arith
state_priority-le dead = omega arith

is_news_iff :
    (o : Option Member) (u : MembershipUpdate)
    → (is_news o u ≡ true) ↔ (rank (claim_of o) < rank_of u)
unfolding is_news should_override
is_news_iff none u = ground arith
is_news_iff (some m) u = ground (arith, state_priority-le m.state, state_priority-le u.state)

-- An update about the node itself touches only its incarnation.
pub handle_local_update-fields :
    (u : MembershipUpdate) (l : MemberList)
    → ((handle_local_update u l).local_id ≡ l.local_id)
      × ((handle_local_update u l).members ≡ l.members)
unfolding handle_local_update
handle_local_update-fields u l = ground arith

pub apply_update-local :
    (now : ℕ) (u : MembershipUpdate) (l : MemberList)
    → (apply_update now u l).0.local_id ≡ l.local_id
unfolding apply_update
apply_update-local now u l = ground (arith, handle_local_update-fields u l)

pub rank-apply_update :
    (now k : ℕ) (u : MembershipUpdate) (l : MemberList)
    → nat_eq k l.local_id ≡ false
    → rank (claim_at k (apply_update now u l).0)
      ≡ (if nat_eq u.node_id k then max (rank (claim_at k l)) (rank_of u) else rank (claim_at k l))
unfolding apply_update
rank-apply_update now k u l other = ground (
  arith,
  handle_local_update-fields u l,
  is_news_iff (get u.node_id l.members) u,
  get-insert u.node_id k (with_state u now) l.members,
)

-- The ranks of the updates about a node.
abbrev ranks_of : ℕ → List MembershipUpdate → List ℕ
ranks_of k [] = []
ranks_of k (u ∷ us) = if nat_eq u.node_id k then rank_of u ∷ ranks_of k us else ranks_of k us

highest-max : (v w : ℕ) (vs : List ℕ) → highest (max w v) vs ≡ max v (highest w vs)
unfolding highest
highest-max v w [] = omega arith
highest-max v w (x ∷ vs) = omega (arith, highest-max v w vs)

rank-apply_updates :
    (now k : ℕ) (us : List MembershipUpdate) (l : MemberList)
    → nat_eq k l.local_id ≡ false
    → rank (claim_at k (apply_updates now us l)) ≡ highest (rank (claim_at k l)) (ranks_of k us)
unfolding apply_updates highest
rank-apply_updates now k [] l other = refl
rank-apply_updates now k (u ∷ us) l other = ground (
  arith,
  apply_update-local now u l,
  rank-apply_update now k u l other,
  rank-apply_updates now k us (apply_update now u l).0,
  highest-max (rank_of u) (rank (claim_at k l)) (ranks_of k us),
)

-- An update is among those received.
abbrev pub Among : MembershipUpdate → List MembershipUpdate → Type 0
Among u [] = ⊥
Among u (v ∷ vs) = (v ≡ u) ⊎ Among u vs

Among-rank :
    (k w : ℕ) (u : MembershipUpdate) (us : List MembershipUpdate)
    → nat_eq u.node_id k ≡ true
    → Among u us
    → rank_of u ≤ highest w (ranks_of k us)
unfolding highest
Among-rank k w u [] at m = absurd m
Among-rank k w u (v ∷ vs) at (inl e) =
    let at' : nat_eq v.node_id k ≡ true = rw e at in
    let same : rank_of v ≡ rank_of u = ap rank_of e in rw (at', same) (omega arith)
Among-rank k w u (v ∷ vs) at (inr m) = ground (arith, Among-rank k w u vs at m)

ranks-Below :
    (k w : ℕ) (us vs : List MembershipUpdate)
    → ((u : MembershipUpdate) → Among u us → Among u vs)
    → All (Below (highest w (ranks_of k vs))) (ranks_of k us)
ranks-Below k w [] vs sub = tt
ranks-Below k w (u ∷ us) vs sub =
    let rest = ranks-Below k w us vs (λ v m. sub v (inr m)) in
    elim (Bool-cases (nat_eq u.node_id k)) [
      | inl e ↦ rw e (Among-rank k w u vs e (sub u (inl refl)), rest)
      | inr e ↦ rw e rest
    ]

highest-sub :
    (k w : ℕ) (us vs : List MembershipUpdate)
    → ((u : MembershipUpdate) → Among u us → Among u vs)
    → highest w (ranks_of k us) ≤ highest w (ranks_of k vs)
highest-sub k w us vs sub =
    highest-least (highest w (ranks_of k vs)) w (ranks_of k us) (highest-above w (ranks_of k vs))
      (ranks-Below k w us vs sub)

-- Two tables that say the same of a node (its state and incarnation, or nothing), which is the owner of
-- neither of them, say the same of it after the same updates, in whatever order and however often each
-- update comes to either.
pub apply_updates-agree :
    (now later k : ℕ) (us vs : List MembershipUpdate) (l m : MemberList)
    → nat_eq k l.local_id ≡ false
    → nat_eq k m.local_id ≡ false
    → ((u : MembershipUpdate) → Among u us → Among u vs)
    → ((u : MembershipUpdate) → Among u vs → Among u us)
    → claim_at k l ≡ claim_at k m
    → claim_at k (apply_updates now us l) ≡ claim_at k (apply_updates later vs m)
apply_updates-agree now later k us vs l m ol om sub sup same =
    let start = ap rank same in
    let first = highest-sub k (rank (claim_at k m)) us vs sub in
    let second = highest-sub k (rank (claim_at k m)) vs us sup in
    let left = rank-apply_updates now k us l ol in
    let right = rank-apply_updates later k vs m om in
    rank-injective (claim_at k (apply_updates now us l)) (claim_at k (apply_updates later vs m))
      (left ∙ (rw start (omega (arith, right))))
