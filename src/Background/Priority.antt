-- ===== src/Background/Priority.antt =====
-- In which order the repair worker serves its requests
-- (crates/blockyard-storage/src/background/repair.rs).
use blockyard.Common.{
  ℕ, suc, ◌≡◌, ◌≤◌, refl, sym, ap, Bool, false, Bool-cases, inl, inr, List, [], ◌∷◌, ◌++◌, ltb,
  nat_eq, keep, All, arith,
}
use mathlib.Core.List.{append-nil, append_assoc}
use blockyard.Background.Repair.{RepairRequest, RepairWorker, insert_request, enqueue}

-- Requests in the order of their numbers.
abbrev pub Sorted : List RepairRequest → Type 0
Sorted [] = Unit
Sorted (r ∷ rs) = All (λ (q : RepairRequest). r.priority ≤ q.priority) rs × Sorted rs

abbrev pub of_priority : ℕ → RepairRequest → Bool
of_priority p r = nat_eq r.priority p

-- Requests that come in one after the other.
abbrev pub enqueue_all : List RepairRequest → RepairWorker → RepairWorker
enqueue_all [] w = w
enqueue_all (r ∷ rs) w = enqueue_all rs (enqueue r w)

All-le :
    (a b : ℕ) (rs : List RepairRequest)
    → a ≤ b
    → All (λ (q : RepairRequest). b ≤ q.priority) rs
    → All (λ (q : RepairRequest). a ≤ q.priority) rs
All-le a b [] le h = tt
All-le a b (r ∷ rs) le h = (omega arith, All-le a b rs le h.1)

insert_request-All :
    (a : ℕ) (r : RepairRequest) (rs : List RepairRequest)
    → a ≤ r.priority
    → All (λ (q : RepairRequest). a ≤ q.priority) rs
    → All (λ (q : RepairRequest). a ≤ q.priority) (insert_request r rs)
unfolding insert_request
insert_request-All a r [] le h = (le, tt)
insert_request-All a r (q ∷ rs) le h = elim (Bool-cases (ltb r.priority q.priority)) [
  | inl e ↦ rw e (le, h)
  | inr e ↦ rw e (h.0, insert_request-All a r rs le h.1)
]

insert_request-Sorted :
    (r : RepairRequest) (rs : List RepairRequest) → Sorted rs → Sorted (insert_request r rs)
unfolding insert_request
insert_request-Sorted r [] h = (tt, tt)
insert_request-Sorted r (q ∷ rs) h = elim (Bool-cases (ltb r.priority q.priority)) [
  | inl e ↦
      let le : r.priority ≤ q.priority = ground arith in
      rw e ((le, All-le r.priority q.priority rs le h.0), h)
  | inr e ↦
      let le : q.priority ≤ r.priority = ground arith in
      rw e (insert_request-All q.priority r rs le h.0, insert_request-Sorted r rs h.1)
]

keep-none :
    (p : ℕ) (rs : List RepairRequest)
    → All (λ (q : RepairRequest). suc p ≤ q.priority) rs
    → keep (of_priority p) rs ≡ []
unfolding keep
keep-none p [] h = refl
keep-none p (r ∷ rs) h =
    let other : of_priority p r ≡ false = ground arith in rw other (keep-none p rs h.1)

module _ (p : ℕ) (r : RepairRequest) where
  -- A request comes after those of its own number.
  insert_request-keep :
      (rs : List RepairRequest)
      → Sorted rs
      → keep (of_priority p) (insert_request r rs)
        ≡ keep (of_priority p) rs ++ keep (of_priority p) (r ∷ [])
  unfolding insert_request keep
  insert_request-keep [] h = refl
  insert_request-keep (q ∷ rs) h = elim (Bool-cases (ltb r.priority q.priority)) [
    | inl e ↦ elim (Bool-cases (of_priority p r)) [
      | inr f ↦ rw (e, f) (sym (append-nil (keep (of_priority p) (q ∷ rs))))
      | inl f ↦
          let above : suc p ≤ q.priority = ground arith in
          let other : of_priority p q ≡ false = ground arith in
          let nothing = keep-none p rs (All-le (suc p) q.priority rs above h.0) in
          rw (e, f, other, nothing) refl
    ]
    | inr e ↦ elim (Bool-cases (of_priority p q)) [
      | inl f ↦ rw (e, f) (ap (λ (xs : List RepairRequest). q ∷ xs) (insert_request-keep rs h.1))
      | inr f ↦ rw (e, f) (insert_request-keep rs h.1)
    ]
  ]

module _ (p : ℕ) where
  enqueue_all-keep :
      (rs : List RepairRequest) (w : RepairWorker)
      → Sorted w.queue
      → keep (of_priority p) (enqueue_all rs w).queue
        ≡ keep (of_priority p) w.queue ++ keep (of_priority p) rs
  unfolding enqueue keep
  enqueue_all-keep [] w h = sym (append-nil (keep (of_priority p) w.queue))
  enqueue_all-keep (r ∷ rs) w h =
      let later = enqueue_all-keep rs (enqueue r w) (insert_request-Sorted r w.queue h) in
      let now = insert_request-keep p r w.queue h in
      let split : keep (of_priority p) (r ∷ rs)
          ≡ keep (of_priority p) (r ∷ []) ++ keep (of_priority p) rs =
        elim (Bool-cases (of_priority p r)) [ inl f ↦ rw f refl | inr f ↦ rw f refl ] in
      rw (later, now, split) (append_assoc (keep (of_priority p) w.queue) _ _)

enqueue_all-Sorted :
    (rs : List RepairRequest) (w : RepairWorker) → Sorted w.queue → Sorted (enqueue_all rs w).queue
unfolding enqueue
enqueue_all-Sorted [] w h = h
enqueue_all-Sorted (r ∷ rs) w h =
    enqueue_all-Sorted rs (enqueue r w) (insert_request-Sorted r w.queue h)

-- Requests enqueued one after the other into a worker whose queue is in the order of the numbers leave
-- it in that order, and those of one number wait in the order in which they came, after the ones that
-- waited before: the queue is sorted, and stably.
pub enqueue_all-Served :
    (rs : List RepairRequest) (w : RepairWorker)
    → Sorted w.queue
    → Sorted (enqueue_all rs w).queue
      × ((p : ℕ)
          → keep (of_priority p) (enqueue_all rs w).queue
            ≡ keep (of_priority p) w.queue ++ keep (of_priority p) rs)
enqueue_all-Served rs w h = (enqueue_all-Sorted rs w h, λ p. enqueue_all-keep p rs w h)
