-- ===== src/Storage/Tokens.antt =====
-- crates/blockyard-storage/src/background/rate_limit.rs: the token bucket of the background work. An
-- instant is a number of milliseconds, which each operation gets as `now`. An operation stands for a
-- call that meets no other: its exchange finds what it has loaded.
use blockyard.Common.{
  ℕ, zero, suc, ◌+◌, ◌-◌, ◌*◌, ◌/◌, ◌%◌, u64_mod, wrapping_add, min, Bool, true, false, Option,
  none, some, List, [], ◌∷◌, ltb, leb, if◌then◌else◌,
}

pub record TokenBucket : Type 0 where
  pub capacity : ℕ
  pub refill_rate : ℕ
  pub tokens : ℕ
  pub last_refill : ℕ

abbrev pub new : ℕ → ℕ → ℕ → TokenBucket
new capacity refill_rate now = record {
  capacity = capacity;
  refill_rate = refill_rate;
  tokens = capacity;
  last_refill = now;
}

unfoldable pub new_tokens : ℕ → TokenBucket → ℕ
new_tokens now b = (((now - b.last_refill) * b.refill_rate) % u64_mod) / 1000

-- The store of a refill, by the tokens that it has loaded and those that it adds.
unfoldable pub store_refill : ℕ → ℕ → ℕ → TokenBucket → TokenBucket
store_refill now current added b = record b {
  tokens = min (wrapping_add current added) b.capacity;
  last_refill = now;
}

unfoldable pub refill : ℕ → TokenBucket → TokenBucket
unfolding new_tokens store_refill
refill now b =
    if ltb 0 (new_tokens now b) then store_refill now b.tokens (new_tokens now b) b else b

unfoldable pub take_tokens : ℕ → TokenBucket → TokenBucket × Bool
take_tokens count b =
    if leb count b.tokens then (record b { tokens = b.tokens - count }, true) else (b, false)

unfoldable pub try_acquire : ℕ → ℕ → TokenBucket → TokenBucket × Bool
unfolding take_tokens refill
try_acquire now count b = take_tokens count (refill now b)

unfoldable pub available : ℕ → TokenBucket → TokenBucket × ℕ
unfolding refill
available now b = (refill now b, (refill now b).tokens)

-- The loop of `acquire`, which waits for 10 ms between two tries, and the time at which it returns.
unfoldable pub acquire : ℕ → ℕ → ℕ → TokenBucket → Option (TokenBucket × ℕ)
unfolding try_acquire
acquire zero now count b = none
acquire (suc fuel) now count b =
    let (b', done) = try_acquire now count b in
    let rest = acquire fuel (now + 10) count b' in if done then some (b', now) else rest

-- Calls of `try_acquire`, each with its time and count, and the tokens that they were granted.
unfoldable pub grants : List (ℕ × ℕ) → TokenBucket → TokenBucket × ℕ
unfolding try_acquire
grants [] b = (b, 0)
grants ((now, count) ∷ calls) b =
    let (b', done) = try_acquire now count b in
    let (b'', granted) = grants calls b' in (b'', (if done then count else 0) + granted)
