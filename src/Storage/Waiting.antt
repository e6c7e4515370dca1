-- ===== src/Storage/Waiting.antt =====
-- A call that waits for tokens, and meets no other caller, gets them
-- (crates/blockyard-storage/src/background/rate_limit.rs, `acquire`).
use blockyard.Common.{
  ℕ, zero, suc, ◌≡◌, ◌≤◌, ◌<◌, ◌+◌, ◌-◌, ◌*◌, ◌⊎◌, u64_mod, wrapping_add, min, refl, sym, true,
  false, Bool-cases, inl, inr, some, ltb, leb, arith,
}
use mathlib.Core.Path.{subst}
use blockyard.Storage.Tokens.{
  TokenBucket, new_tokens, store_refill, refill, take_tokens, try_acquire, acquire,
}

-- A bucket of which no refill overflows until 1010 ms have passed without one.
abbrev pub Sound : ℕ → TokenBucket → Type 0
Sound now b =
    (0 < b.refill_rate)
    × (b.tokens ≤ b.capacity)
    × (b.last_refill ≤ now)
    × (b.capacity + 1010 * b.refill_rate < u64_mod)
    × (b.capacity + (now - b.last_refill) * b.refill_rate < u64_mod)

mono : (a b r : ℕ) → a ≤ b → a * r ≤ b * r
mono a b r le = grind arith

times-lower : (a b : ℕ) → 0 < b → a ≤ a * b
times-lower a b pos = grind arith

-- What the exchange of a refill stores.
min-cases :
    (a b : ℕ)
    → 0 < b
    → (m : ℕ) → m < u64_mod
    → a + b ≤ m
    → (c : ℕ) → (a + 1 ≤ min (wrapping_add a b) c) ⊎ (min (wrapping_add a b) c ≡ c)
min-cases a b pos m bound le c = omega arith

-- A try refills the bucket, or the time since the last refill is too short for a token.
refill-cases :
    (now : ℕ) (b : TokenBucket)
    → Sound now b
    → (((b.tokens + 1 ≤ (refill now b).tokens) ⊎ ((refill now b).tokens ≡ b.capacity))
        × ((refill now b).tokens ≤ b.capacity)
        × ((refill now b).last_refill ≡ now)
        × ((refill now b).capacity ≡ b.capacity)
        × ((refill now b).refill_rate ≡ b.refill_rate))
      ⊎ ((refill now b ≡ b) × (now - b.last_refill < 1000))
unfolding new_tokens refill store_refill
refill-cases now b (pos, within, past, room, room') = elim (Bool-cases (ltb 0 (new_tokens now b))) [
  | inl e ↦
      let added : 0 < new_tokens now b = ground arith in
      let fits : b.tokens + new_tokens now b ≤ b.capacity + (now - b.last_refill) * b.refill_rate =
        omega arith in
      let more =
        min-cases b.tokens (new_tokens now b) added
          (b.capacity + (now - b.last_refill) * b.refill_rate) room' fits b.capacity in
      rw e (inl (more, omega arith, refl, refl, refl))
  | inr e ↦
      let nothing : (now - b.last_refill) * b.refill_rate < 1000 = ground arith in
      rw e (inr (refl, omega (arith, times-lower (now - b.last_refill) b.refill_rate pos)))
]

take_tokens-cases :
    (count : ℕ) (b : TokenBucket)
    → ((take_tokens count b).1 ≡ true) ⊎ ((take_tokens count b ≡ (b, false)) × (b.tokens < count))
unfolding take_tokens
take_tokens-cases count b = elim (Bool-cases (leb count b.tokens)) [
  | inl e ↦ rw e (inl refl)
  | inr e ↦ rw e (inr (refl, ground arith))
]

-- `acquire` returns with the tokens that it wants.
abbrev pub Served : ℕ → ℕ → ℕ → TokenBucket → Type 0
Served fuel now count b =
    (r : TokenBucket × ℕ) × (acquire fuel now count b ≡ some r) × (r.1 ≤ now + 10 * fuel)

Served-now :
    (fuel now count : ℕ) (b : TokenBucket)
    → (take_tokens count (refill now b)).1 ≡ true
    → Served (suc fuel) now count b
unfolding acquire try_acquire
Served-now fuel now count b done =
    (((take_tokens count (refill now b)).0, now), rw done refl, omega arith)

Served-later :
    (fuel now count : ℕ) (b b' : TokenBucket)
    → take_tokens count (refill now b) ≡ (b', false)
    → Served fuel (now + 10) count b'
    → Served (suc fuel) now count b
unfolding acquire try_acquire
Served-later fuel now count b b' again (r, e, soon) = (r, rw again e, omega arith)

Sound-filled :
    (now : ℕ) (b b' : TokenBucket)
    → Sound now b
    → b'.tokens ≤ b.capacity
    → b'.last_refill ≡ now
    → b'.capacity ≡ b.capacity
    → b'.refill_rate ≡ b.refill_rate
    → Sound (now + 10) b'
Sound-filled now b b' (pos, _, _, room, _) within at same rate =
    rw (at, same, rate)
      (
        omega arith,
        omega arith,
        omega arith,
        omega arith,
        omega (arith, mono (now + 10 - now) 1010 b.refill_rate (omega arith)),
      )

Sound-kept :
    (now : ℕ) (b : TokenBucket) → Sound now b → now - b.last_refill < 1000 → Sound (now + 10) b
Sound-kept now b (pos, within, past, room, _) early = (
  pos,
  within,
  omega arith,
  room,
  omega (arith, mono (now + 10 - b.last_refill) 1010 b.refill_rate (omega arith)),
)

-- With `need` tokens missing, and at most `tries` tries before the next refill.
acquire-waits :
    (fuel now count : ℕ) (b : TokenBucket) (need tries : ℕ)
    → Sound now b
    → count ≤ b.capacity
    → count ≤ b.tokens + need
    → 1000 ≤ (now - b.last_refill) + 10 * tries
    → need * 101 + tries + 1 ≤ fuel
    → Served fuel now count b
acquire-waits zero now count b need tries sound fits short wait enough = absurd (omega arith)
acquire-waits (suc fuel) now count b need tries sound fits short wait enough =
    let rest = acquire-waits fuel (now + 10) count in
    elim (take_tokens-cases count (refill now b)) [
      | inl done ↦ Served-now fuel now count b done
      | inr (again, few) ↦
          Served-later fuel now count b (refill now b) again (elim (refill-cases now b sound) [
            | inl (more, within, at, same, rate) ↦
                rest (refill now b) (need - 1) 99
                  (Sound-filled now b (refill now b) sound within at same rate) (omega arith)
                  (omega arith) (omega arith) (omega arith)
            | inr (kept, early) ↦
                subst (λ b'. Served fuel (now + 10) count b') (sym kept)
                  (rest b need (tries - 1) (Sound-kept now b sound early) fits short (omega arith)
                    (omega arith))
          ])
    ]

-- A call that wants no more than the bucket holds, while nobody else uses the bucket and each of its
-- sleeps lasts 10 ms, does return: it waits at most 1010 ms for each token and 1010 ms more, if the
-- rate is not zero and no refill overflows.
pub acquire-ends :
    (now count : ℕ) (b : TokenBucket)
    → Sound now b
    → count ≤ b.capacity
    → Served (count * 101 + 101) now count b
acquire-ends now count b sound fits =
    acquire-waits (count * 101 + 101) now count b count 100 sound fits (omega arith) (omega arith)
      (omega arith)
