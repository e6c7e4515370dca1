-- ===== src/Tests/Budget.antt =====
-- The theorems about the background budget and the bad regions at small buckets and regions.
use blockyard.Common.{ℕ, ◌≡◌, refl, ◌≤◌, ◌+◌, ◌-◌, ◌*◌, ◌/◌, [], ◌∷◌, List, arith}
use blockyard.Storage.Tokens.{
  TokenBucket, new, grants, try_acquire, take_tokens, refill, new_tokens, store_refill,
}
use blockyard.Storage.Refills.{
  BucketEvent, refill_loads, refill_stores, exchanges, bucket_run, fresh_bucket, bucket_run-bounded,
}
use blockyard.Storage.Waiting.{Served, acquire-ends}
use blockyard.Storage.Regions.{BadRegion}

-- Two tokens at time 0, and 100 more a second.
abbrev bucket : TokenBucket
bucket = new 2 100 0

abbrev calls : List (ℕ × ℕ)
calls = (0, 2) ∷ (5, 1) ∷ (10, 1) ∷ []

grants-run : (grants calls bucket).1 ≡ 3
unfolding grants try_acquire take_tokens refill new_tokens store_refill
grants-run = refl

-- An exchange falls between the load and the store of a refill, which gives its token again.
abbrev events : List BucketEvent
events = refill_loads 10 ∷ exchanges 1 ∷ refill_stores ∷ exchanges 2 ∷ []

bucket_run-bounded_example :
    (bucket_run events (fresh_bucket bucket)).granted
    ≤ bucket.tokens
      + ((10 - bucket.last_refill) * bucket.refill_rate) / 1000
      + (bucket_run events (fresh_bucket bucket)).in_refills
bucket_run-bounded_example =
    bucket_run-bounded 10 events bucket (ground arith) (ground arith, (tt, (tt, (tt, tt))))

abbrev empty : TokenBucket
empty = record { capacity = 2; refill_rate = 100; tokens = 0; last_refill = 0 }

acquire-ends_example : Served (1 * 101 + 101) 0 1 empty
acquire-ends_example =
    acquire-ends 0 1 empty (ground arith, ground arith, ground arith, ground arith, ground arith)
      (ground arith)

abbrev regions : List BadRegion
regions = record { offset = 4; length = 4 } ∷ record { offset = 12; length = 2 } ∷ []
