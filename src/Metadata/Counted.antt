-- ===== src/Metadata/Counted.antt =====
-- Replay under an invariant that counts the requests, as the wrapping counters need.
use blockyard.Common.{
  ℕ, suc, String, ◌+◌, ◌<◌, ◌≡◌, Option, none, some, List, [], ◌∷◌, arith, length, u64_mod,
}
use native.Mathlib.Nat.{add-zero}
use blockyard.Metadata.State.{MetadataState, MetadataRequest, Outcome}
use blockyard.Metadata.Apply.{apply_request, replay, follow}
use blockyard.Metadata.CommitLaws.Epochs.{Keeps}

abbrev pub Ends : (MetadataState → Type 0) → Option MetadataState → Type 0
Ends P none = Unit
Ends P (some s) = P s

follow-Ends :
    (P Q : MetadataState → Type 0) (o : Outcome) (next : MetadataState → Option MetadataState)
    → Keeps P o
    → ((s : MetadataState) → P s → Ends Q (next s))
    → Ends Q (follow o next)
unfolding follow
follow-Ends P Q none next h k = tt
follow-Ends P Q (some (s, resp)) next h k = k s h

replay-counted :
    (to_string : ℕ → String) (P : ℕ → MetadataState → Type 0)
    → ((req : MetadataRequest) (n : ℕ) (s : MetadataState)
        → suc n < u64_mod
        → P n s
        → Keeps (P (suc n)) (apply_request to_string req s))
    → (log : List MetadataRequest) (n : ℕ) (s : MetadataState) → n + length log < u64_mod
    → P n s
    → Ends (P (n + length log)) (replay to_string log s)
unfolding replay
replay-counted to_string P step [] n s fits h = rw add-zero h
replay-counted to_string P step (req ∷ log) n s fits h =
    follow-Ends (P (suc n)) (P (n + suc (length log))) (apply_request to_string req s)
      (replay to_string log) (step req n s (omega arith) h)
      (λ t ht.
        let e : n + suc (length log) ≡ suc n + length log = omega arith in
        rw e (replay-counted to_string P step log (suc n) t (omega arith) ht))

pub replay-from_zero :
    (to_string : ℕ → String) (P : ℕ → MetadataState → Type 0)
    → ((req : MetadataRequest) (n : ℕ) (s : MetadataState)
        → suc n < u64_mod
        → P n s
        → Keeps (P (suc n)) (apply_request to_string req s))
    → (log : List MetadataRequest) (s : MetadataState) → length log < u64_mod
    → P 0 s
    → Ends (P (length log)) (replay to_string log s)
replay-from_zero to_string P step log s fits h =
    let e : 0 + length log ≡ length log = omega arith in
    rw e at (replay-counted to_string P step log 0 s (omega arith) h)

-- Without a count.
pub replay-Keeps :
    (to_string : ℕ → String) (P : MetadataState → Type 0)
    → ((req : MetadataRequest) (s : MetadataState) → P s → Keeps P (apply_request to_string req s))
    → (log : List MetadataRequest) (s : MetadataState) → P s
    → Ends P (replay to_string log s)
unfolding replay
replay-Keeps to_string P step [] s h = h
replay-Keeps to_string P step (req ∷ log) s h =
    follow-Ends P P (apply_request to_string req s) (replay to_string log) (step req s h)
      (replay-Keeps to_string P step log)
