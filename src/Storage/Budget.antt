-- ===== src/Storage/Budget.antt =====
-- The background work stays within its budget, while its calls do not meet
-- (crates/blockyard-storage/src/background/rate_limit.rs).
use blockyard.Common.{
  ℕ, ◌≡◌, ap, ◌∙◌, ◌≤◌, ◌<◌, ◌+◌, ◌-◌, ◌*◌, ◌/◌, max, refl, Bool-cases, inl, inr, List, [], ◌∷◌,
  All, ltb, if◌then◌else◌, arith,
}
use blockyard.Storage.Tokens.{
  TokenBucket, new_tokens, store_refill, refill, take_tokens, try_acquire, grants,
}

pub span : (a b r : ℕ) → a ≤ b → (b - a) * r + a * r ≡ b * r
span a b r le = grind arith

pub mono : (a b r : ℕ) → a ≤ b → a * r ≤ b * r
mono a b r le = grind arith

-- What a refill adds is within the rate.
pub new_tokens-le :
    (now : ℕ) (b : TokenBucket) → 1000 * new_tokens now b ≤ (now - b.last_refill) * b.refill_rate
unfolding new_tokens
new_tokens-le now b = omega arith

pub new_tokens-later : (now : ℕ) (b : TokenBucket) → 0 < new_tokens now b → b.last_refill < now
unfolding new_tokens
new_tokens-later now b some_new = grind arith

-- A budget in thousandths of a token.
refill-budget :
    (now : ℕ) (b : TokenBucket)
    → (1000 * (refill now b).tokens + b.last_refill * b.refill_rate
        ≤ 1000 * b.tokens + (refill now b).last_refill * b.refill_rate)
      × (b.last_refill ≤ (refill now b).last_refill)
      × ((refill now b).last_refill ≤ max now b.last_refill)
      × ((refill now b).refill_rate ≡ b.refill_rate)
unfolding refill store_refill
refill-budget now b = elim (Bool-cases (ltb 0 (new_tokens now b))) [
  | inl e ↦
      let later : b.last_refill < now = new_tokens-later now b (ground arith) in
      let added = new_tokens-le now b in
      let apart = span b.last_refill now b.refill_rate (omega arith) in
      rw e (omega arith, omega arith, omega arith, refl)
  | inr e ↦ rw e (omega arith, omega arith, omega arith, refl)
]

take_tokens-budget :
    (count : ℕ) (b : TokenBucket)
    → let (b', done) = take_tokens count b in
      (b'.tokens + (if done then count else 0) ≡ b.tokens)
      × (b'.last_refill ≡ b.last_refill)
      × (b'.refill_rate ≡ b.refill_rate)
unfolding take_tokens
take_tokens-budget count b = ground arith

grants-budget :
    (finish : ℕ) (calls : List (ℕ × ℕ)) (b : TokenBucket)
    → b.last_refill ≤ finish
    → All (λ (c : ℕ × ℕ). c.0 ≤ finish) calls
    → 1000 * ((grants calls b).1 + (grants calls b).0.tokens) + b.last_refill * b.refill_rate
      ≤ 1000 * b.tokens + finish * b.refill_rate
unfolding grants try_acquire
grants-budget finish [] b start ins = omega (arith, mono b.last_refill finish b.refill_rate start)
grants-budget finish ((now, count) ∷ calls) b start (i, ins) =
    let (filled, _, soon, rate) = refill-budget now b in
    let (taken, at, rate') = take_tokens-budget count (refill now b) in
    let b' = (take_tokens count (refill now b)).0 in
    let rest = grants-budget finish calls b' (omega arith) ins in
    let r : b'.refill_rate ≡ b.refill_rate = rate' ∙ rate in
    let kept : b'.last_refill * b'.refill_rate ≡ (refill now b).last_refill * b.refill_rate =
      ap (λ x. x * b'.refill_rate) at ∙ ap (λ x. (refill now b).last_refill * x) r in
    let ended : finish * b'.refill_rate ≡ finish * b.refill_rate = ap (λ x. finish * x) r in
    omega arith

-- What calls of `try_acquire` that meet no other are granted until a time is at most the tokens that
-- there were, and those of the refill rate since the last refill.
pub grants-bounded :
    (finish : ℕ) (calls : List (ℕ × ℕ)) (b : TokenBucket)
    → b.last_refill ≤ finish
    → All (λ (c : ℕ × ℕ). c.0 ≤ finish) calls
    → (grants calls b).1 ≤ b.tokens + ((finish - b.last_refill) * b.refill_rate) / 1000
grants-bounded finish calls b start ins =
    omega
      (arith, grants-budget finish calls b start ins, span b.last_refill finish b.refill_rate start)
