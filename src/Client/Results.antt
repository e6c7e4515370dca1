-- ===== src/Client/Results.antt =====
-- `Result` with the client's errors. An error keeps its kind in place of its text.
use blockyard.Common.{ℕ, Bool, true, false}

pub data ClientError : Type 0 where
  -- What a call of the metadata service failed with.
  unreachable : ℕ → ClientError
  lease_denied unexpected_response no_version not_held lease_lost : ClientError

pub data Result {ℓ} (A : Type ℓ) : Type ℓ where
  ok : A → Result A
  err : ClientError → Result A

abbrev pub is_ok {ℓ} : {A : Type ℓ} → Result A → Bool
is_ok (ok a) = true
is_ok (err e) = false
