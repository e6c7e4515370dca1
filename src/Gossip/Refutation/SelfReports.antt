-- ===== src/Gossip/Refutation/SelfReports.antt =====
-- The entry of a node in its own table stays as it was made: alive, at incarnation 0.
use blockyard.Common.{
  ℕ-eq, ℕ, zero, suc, ◌≡◌, ◌⊎◌, inl, inr, refl, sym, ◌∙◌, false, some, Option-cases, Bool-cases,
  List, [], ◌∷◌, map, nat_eq, ltb, arith, All,
}
use blockyard.Common.Maps.{Map, get, insert, values}
use blockyard.Gossip.Members.{
  MemberState, alive, suspect, dead, same_state, MembershipUpdate, Member, MemberList, to_update,
  with_state, apply_update, apply_updates, is_news, mark_suspect, suspect_found, mark_dead,
  dead_found, set_state, take, place, by_incarnation, recent_updates,
}
use blockyard.Gossip.Convergence.{handle_local_update-fields}

-- An update about another node, or the first claim that there is about a node.
abbrev pub SaysNothing : ℕ → MembershipUpdate → Type 0
SaysNothing k u = (nat_eq u.node_id k ≡ false) ⊎ ((u.state ≡ alive) × (u.incarnation ≡ 0))

abbrev Entry : ℕ → ℕ × Member → Type 0
Entry k (j, m) = (j ≡ m.node_id) × SaysNothing k (to_update m)

abbrev pub Tame : ℕ → MemberList → Type 0
Tame k l = (l.local_id ≡ k) × All (Entry k) l.members

insert-Entry :
    (k j : ℕ) (v : Member) (m : Map ℕ Member)
    → Entry k (j, v)
    → All (Entry k) m
    → All (Entry k) (insert j v m)
unfolding insert
insert-Entry k j v [] e es = (e, tt)
insert-Entry k j v ((i, w) ∷ m) e (f, fs) = elim (Bool-cases (nat_eq i j)) [
  | inl same ↦ rw same (((ground arith), e.1), fs)
  | inr apart ↦ rw apart (f, insert-Entry k j v m e fs)
]

get-Entry :
    (k j : ℕ) (v : Member) (m : Map ℕ Member) → get j m ≡ some v → All (Entry k) m → Entry k (j, v)
unfolding get
get-Entry k j v [] h es = absurd (cc)
get-Entry k j v ((i, w) ∷ m) h (f, fs) = elim (Bool-cases (nat_eq i j)) [
  | inl same ↦
      let value : w ≡ v = ground arith in
      let key : i ≡ j = ground arith in rw (sym key, sym value) f
  | inr apart ↦ get-Entry k j v m (ground arith) fs
]

pub apply_update-Tame :
    (now k : ℕ) (u : MembershipUpdate) (l : MemberList) → Tame k l → Tame k (apply_update now u l).0
unfolding apply_update
apply_update-Tame now k u l (local, es) = elim (Bool-cases (nat_eq u.node_id l.local_id)) [
  | inl own ↦
      let (id, members) = handle_local_update-fields u l in rw own (id ∙ local, rw members es)
  | inr apart ↦ elim (Bool-cases (is_news (get u.node_id l.members) u)) [
    | inl news ↦
        rw (apart, news)
          (
            local,
            insert-Entry k u.node_id (with_state u now) l.members (refl, inl (ground arith)) es,
          )
    | inr old ↦ rw (apart, old) (local, es)
  ]
]

pub apply_updates-Tame :
    (now k : ℕ) (us : List MembershipUpdate) (l : MemberList)
    → Tame k l
    → Tame k (apply_updates now us l)
unfolding apply_updates
apply_updates-Tame now k [] l t = t
apply_updates-Tame now k (u ∷ us) l t =
    apply_updates-Tame now k us (apply_update now u l).0 (apply_update-Tame now k u l t)

set_state-Tame :
    (now j k : ℕ) (state : MemberState) (m : Member) (l : MemberList)
    → nat_eq j k ≡ false
    → get j l.members ≡ some m
    → Tame k l
    → Tame k (set_state now j state m l)
unfolding set_state
set_state-Tame now j k state m l other found (local, es) =
    let (at, _) = get-Entry k j m l.members found es in
    (
      local,
      insert-Entry k j (record m { state = state; state_change = now }) l.members
          (at, inl (ground arith)) es,
    )

pub mark_suspect-Tame :
    (now j k : ℕ) (l : MemberList) → nat_eq j k ≡ false → Tame k l → Tame k (mark_suspect now j l).0
unfolding mark_suspect suspect_found
mark_suspect-Tame now j k l other t = elim (Option-cases (get j l.members)) [
  | inl e ↦ rw e t
  | inr (m, e) ↦ elim (Bool-cases (same_state m.state alive)) [
    | inl s ↦ rw (e, s) (set_state-Tame now j k suspect m l other e t)
    | inr s ↦ rw (e, s) t
  ]
]

pub mark_dead-Tame :
    (now j k : ℕ) (l : MemberList) → nat_eq j k ≡ false → Tame k l → Tame k (mark_dead now j l).0
unfolding mark_dead dead_found
mark_dead-Tame now j k l other t = elim (Option-cases (get j l.members)) [
  | inl e ↦ rw e t
  | inr (m, e) ↦ elim (Bool-cases (same_state m.state dead)) [
    | inl s ↦ rw (e, s) t
    | inr s ↦ rw (e, s) (set_state-Tame now j k dead m l other e t)
  ]
]

values-SaysNothing :
    (k : ℕ) (m : Map ℕ Member) → All (Entry k) m → All (SaysNothing k) (map to_update (values m))
unfolding values
values-SaysNothing k [] es = tt
values-SaysNothing k ((j, v) ∷ m) (e, es) = (e.1, values-SaysNothing k m es)

module _ (k : ℕ) where
  place-All :
      (u : MembershipUpdate) (us : List MembershipUpdate)
      → SaysNothing k u
      → All (SaysNothing k) us
      → All (SaysNothing k) (place u us)
  unfolding place
  place-All u [] s ss = (s, tt)
  place-All u (v ∷ vs) s (t, ts) = elim (Bool-cases (ltb u.incarnation v.incarnation)) [
    | inl e ↦ rw e (t, place-All u vs s ts)
    | inr e ↦ rw e (s, (t, ts))
  ]

  by_incarnation-All :
      (us : List MembershipUpdate)
      → All (SaysNothing k) us
      → All (SaysNothing k) (by_incarnation us)
  unfolding by_incarnation
  by_incarnation-All [] ss = tt
  by_incarnation-All (u ∷ us) (s, ss) = place-All u (by_incarnation us) s (by_incarnation-All us ss)

  take-All :
      (n : ℕ) (us : List MembershipUpdate)
      → All (SaysNothing k) us
      → All (SaysNothing k) (take n us)
  take-All zero us ss = tt
  take-All (suc n) [] ss = tt
  take-All (suc n) (u ∷ us) (s, ss) = (s, take-All n us ss)

  pub recent_updates-SaysNothing :
      (n : ℕ) (l : MemberList) → Tame k l → All (SaysNothing k) (recent_updates n l)
  unfolding recent_updates
  recent_updates-SaysNothing n l (local, es) =
      take-All n (by_incarnation (map to_update (values l.members)))
        (by_incarnation-All (map to_update (values l.members)) (values-SaysNothing k l.members es))
