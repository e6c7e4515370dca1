-- ===== src/Storage/Refills.antt =====
-- The atomics of crates/blockyard-storage/src/background/rate_limit.rs. `refill` holds the lock of
-- `last_refill` over its load of the tokens and its store, and `try_acquire` takes tokens by an
-- exchange without the lock, so that any exchanges can fall between the two.
use blockyard.Common.{
  ℕ, ◌≡◌, ◌≤◌, ◌<◌, ◌+◌, ◌-◌, ◌*◌, ◌/◌, refl, ap, Bool-cases, inl, inr, Option, none, some, List,
  [], ◌∷◌, All, ltb, leb, if◌then◌else◌, arith,
}
use blockyard.Storage.Tokens.{TokenBucket, new_tokens, store_refill}
use blockyard.Storage.Budget.{new_tokens-le, new_tokens-later, span, mono}

-- What a refill between its load and its store has at hand.
pub record Filling : Type 0 where
  pub now : ℕ
  pub current : ℕ
  pub added : ℕ

-- The bucket, the refill in progress, the tokens granted so far, and those of them that were granted
-- while a refill was in progress.
pub record SharedBucket : Type 0 where
  pub bucket : TokenBucket
  pub filling : Option Filling
  pub granted : ℕ
  pub in_refills : ℕ

pub data BucketEvent : Type 0 where
  -- A refill takes the lock, finds new tokens and loads those there are.
  refill_loads : ℕ → BucketEvent
  refill_stores : BucketEvent
  -- An exchange for some tokens.
  exchanges : ℕ → BucketEvent

abbrev pub begin_refill : ℕ → Option Filling → SharedBucket → SharedBucket
begin_refill now (some f) s = s
begin_refill now none s =
    if ltb 0 (new_tokens now s.bucket)
    then record s {
      filling =
          some (record { now = now; current = s.bucket.tokens; added = new_tokens now s.bucket });
    }
    else s

abbrev pub end_refill : Option Filling → SharedBucket → SharedBucket
end_refill none s = s
end_refill (some f) s = record s {
  bucket = store_refill f.now f.current f.added s.bucket;
  filling = none;
}

abbrev pub when_filling : Option Filling → ℕ → ℕ
when_filling none count = 0
when_filling (some f) count = count

-- An event that cannot take place (a load or a store of a refill while it is another's turn, an
-- exchange for more than there is) changes nothing.
unfoldable pub bucket_step : BucketEvent → SharedBucket → SharedBucket
unfolding new_tokens store_refill
bucket_step (refill_loads now) s = begin_refill now s.filling s
bucket_step refill_stores s = end_refill s.filling s
bucket_step (exchanges count) s =
    if leb count s.bucket.tokens
    then record s {
      bucket = record s.bucket { tokens = s.bucket.tokens - count };
      granted = s.granted + count;
      in_refills = s.in_refills + when_filling s.filling count;
    }
    else s

unfoldable pub bucket_run : List BucketEvent → SharedBucket → SharedBucket
unfolding bucket_step
bucket_run [] s = s
bucket_run (e ∷ es) s = bucket_run es (bucket_step e s)

abbrev pub fresh_bucket : TokenBucket → SharedBucket
fresh_bucket b = record { bucket = b; filling = none; granted = 0; in_refills = 0 }

abbrev pub Until : ℕ → BucketEvent → Type 0
Until finish (refill_loads now) = now ≤ finish
Until finish refill_stores = Unit
Until finish (exchanges count) = Unit

module _ (finish : ℕ) (b : TokenBucket) where
  -- In thousandths of a token: `have` tokens beside those granted are within the budget.
  abbrev Covers : ℕ → SharedBucket → Type 0
  Covers have s =
      1000 * (s.granted + have) + b.last_refill * b.refill_rate
      ≤ 1000 * (b.tokens + s.in_refills) + s.bucket.last_refill * b.refill_rate

  abbrev Pending : Option Filling → SharedBucket → Type 0
  Pending none s = Unit
  Pending (some f) s =
      Covers f.current s
      × (1000 * f.added ≤ (f.now - s.bucket.last_refill) * b.refill_rate)
      × (s.bucket.last_refill < f.now)
      × (f.now ≤ finish)

  abbrev Within : SharedBucket → Type 0
  Within s =
      Covers s.bucket.tokens s
      × (s.bucket.refill_rate ≡ b.refill_rate)
      × (s.bucket.last_refill ≤ finish)
      × Pending s.filling s

  load-Within :
      (now : ℕ) (o : Option Filling) (s : SharedBucket)
      → now ≤ finish
      → s.filling ≡ o
      → Within s
      → Within (begin_refill now o s)
  load-Within now (some f) s soon is w = w
  load-Within now none s soon is (covers, rate, start, pending) =
      elim (Bool-cases (ltb 0 (new_tokens now s.bucket))) [
        | inr e ↦ rw e (covers, rate, start, pending)
        | inl e ↦
            let later = new_tokens-later now s.bucket (ground arith) in
            let few = new_tokens-le now s.bucket in
            let same = ap (λ (r : ℕ). (now - s.bucket.last_refill) * r) rate in
            rw e (covers, rate, start, (covers, omega (arith, few, same), later, soon))
      ]

  store-Within :
      (o : Option Filling) (s : SharedBucket)
      → s.filling ≡ o
      → Covers s.bucket.tokens s
      → s.bucket.refill_rate ≡ b.refill_rate
      → s.bucket.last_refill ≤ finish
      → Pending o s
      → Within (end_refill o s)
  unfolding store_refill
  store-Within none s is covers rate start pending = (covers, rate, start, rw is tt)
  store-Within (some f) s is covers rate start (held, few, later, soon) =
      let apart = span s.bucket.last_refill f.now b.refill_rate (omega arith) in
      (omega arith, rate, soon, tt)

  abbrev after_exchange : Option Filling → ℕ → SharedBucket → SharedBucket
  after_exchange o count s = record s {
    bucket = record s.bucket { tokens = s.bucket.tokens - count };
    granted = s.granted + count;
    in_refills = s.in_refills + when_filling o count;
  }

  Pending-kept :
      (o : Option Filling) (count : ℕ) (s : SharedBucket)
      → Pending o s
      → Pending o (after_exchange o count s)
  Pending-kept none count s pending = tt
  Pending-kept (some f) count s (held, few, later, soon) = (omega arith, few, later, soon)

  exchange-Within :
      (count : ℕ) (s : SharedBucket) → Within s → Within (bucket_step (exchanges count) s)
  unfolding bucket_step
  exchange-Within count s (covers, rate, start, pending) =
      elim (Bool-cases (leb count s.bucket.tokens)) [
        | inr e ↦ rw e (covers, rate, start, pending)
        | inl e ↦
            let there : count ≤ s.bucket.tokens = ground arith in
            rw e (omega arith, rate, start, Pending-kept s.filling count s pending)
      ]

  step-Within :
      (e : BucketEvent) (s : SharedBucket) → Until finish e → Within s → Within (bucket_step e s)
  unfolding bucket_step
  step-Within (refill_loads now) s soon w = load-Within now s.filling s soon refl w
  step-Within refill_stores s soon (covers, rate, start, pending) =
      store-Within s.filling s refl covers rate start pending
  step-Within (exchanges count) s soon w = exchange-Within count s w

  run-Within :
      (es : List BucketEvent) (s : SharedBucket)
      → All (Until finish) es
      → Within s
      → Within (bucket_run es s)
  unfolding bucket_run
  run-Within [] s soon w = w
  run-Within (e ∷ es) s (now, soon) w = run-Within es (bucket_step e s) soon (step-Within e s now w)

-- In whatever order refills and exchanges of any callers fall, what is granted until a time is at most
-- the tokens that there were, those of the refill rate since the last refill, and what was granted
-- while a refill was between its load and its store, which that refill forgets.
pub bucket_run-bounded :
    (finish : ℕ) (es : List BucketEvent) (b : TokenBucket)
    → b.last_refill ≤ finish
    → All (Until finish) es
    → (bucket_run es (fresh_bucket b)).granted
      ≤ b.tokens
        + ((finish - b.last_refill) * b.refill_rate) / 1000
        + (bucket_run es (fresh_bucket b)).in_refills
bucket_run-bounded finish es b start soon =
    let (covers, rate, ended, _) =
      run-Within finish b es (fresh_bucket b) soon (omega arith, refl, start, tt) in
    let later =
      mono (bucket_run es (fresh_bucket b)).bucket.last_refill finish b.refill_rate ended in
    omega (arith, covers, later, span b.last_refill finish b.refill_rate start)
