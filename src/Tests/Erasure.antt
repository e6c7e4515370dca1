-- ===== src/Tests/Erasure.antt =====
-- The theorems about the erasure code, for two data fragments and one of parity, which is their sum.
use blockyard.Common.{
  ◌≢◌, ℕ, zero, suc, ◌≡◌, ◌≤◌, ◌+◌, ◌-◌, refl, Bool, true, false, Option, none, some, List, [], ◌∷◌,
  if◌then◌else◌, nat_eq, ◌&&◌, length, keep, map, arith,
}
use mathlib.Core.Path.{subst}
use blockyard.Common.Slots.{available_count}
use blockyard.Storage.Service.Read.{zeros, drop}
use blockyard.Erasure.Shards.{ReedSolomon, parity_shards}
use blockyard.Protection.{erasure_coded}
use blockyard.Client.Device.{take}
use blockyard.Client.Cache.{CachedVolumeInfo, div_ceil}
use blockyard.Erasure.Shards.{data_shard, data_shards}
use blockyard.Erasure.Codec.{
  ok, Fragment, ErasureCodec, new, encode, decode, fragment_size, to_fragments, available,
}
use blockyard.Erasure.RoundTrip.{Erased, length-Erased, Sound, decode-encode}
use blockyard.Erasure.Stripe.{read_ec_block_data}
use blockyard.Erasure.Pipeline.{written_extent}
use blockyard.Erasure.Unaligned.{written_extent-lost}

abbrev plus : List ℕ → List ℕ → List ℕ
plus [] ys = []
plus (x ∷ xs) [] = []
plus (x ∷ xs) (y ∷ ys) = (x + y) ∷ plus xs ys

abbrev minus : List ℕ → List ℕ → List ℕ
minus [] ys = []
minus (x ∷ xs) [] = []
minus (x ∷ xs) (y ∷ ys) = (x - y) ∷ minus xs ys

abbrev with_sum : List (List ℕ) → Option (List (List ℕ))
with_sum (a ∷ b ∷ p ∷ []) = some (a ∷ b ∷ plus a b ∷ [])
with_sum _ = none

abbrev all_of : List ℕ → List ℕ → List ℕ → Option (List (Option (List ℕ)))
all_of a b p = some (some a ∷ some b ∷ some p ∷ [])

abbrev without_one : List (Option (List ℕ)) → Option (List (Option (List ℕ)))
without_one (some a ∷ some b ∷ p ∷ []) = all_of a b (plus a b)
without_one (some a ∷ none ∷ some p ∷ []) = all_of a (minus p a) p
without_one (none ∷ some b ∷ some p ∷ []) = all_of (minus p b) b p
without_one _ = none

abbrev pub sums : ReedSolomon
sums = record {
  accepts = λ data_count parity_count. nat_eq data_count 2 && nat_eq parity_count 1;
  encode = λ data_count parity_count shards. with_sum shards;
  reconstruct = λ data_count parity_count shards. without_one shards;
}

minus-plus : (a b : List ℕ) (n : ℕ) → length a ≡ n → length b ≡ n → minus (plus a b) a ≡ b
minus-plus [] [] n h k = refl
minus-plus [] (y ∷ ys) zero h k = absurd (omega arith)
minus-plus [] (y ∷ ys) (suc n) h k = absurd (omega arith)
minus-plus (x ∷ xs) [] n h k = absurd (omega arith)
minus-plus (x ∷ xs) (y ∷ ys) zero h k = absurd (omega arith)
minus-plus (x ∷ xs) (y ∷ ys) (suc n) h k =
    let head : (x + y) - x ≡ y = omega arith in
    rw (head, minus-plus xs ys n (omega arith) (omega arith)) refl

minus-plus_right : (a b : List ℕ) (n : ℕ) → length a ≡ n → length b ≡ n → minus (plus a b) b ≡ a
minus-plus_right [] b n h k = refl
minus-plus_right (x ∷ xs) [] n h k = absurd (omega arith)
minus-plus_right (x ∷ xs) (y ∷ ys) zero h k = absurd (omega arith)
minus-plus_right (x ∷ xs) (y ∷ ys) (suc n) h k =
    let head : (x + y) - y ≡ x = omega arith in
    rw (head, minus-plus_right xs ys n (omega arith) (omega arith)) refl

restores :
    (n : ℕ) (a b : List ℕ) (o p q : Option (List ℕ))
    → length a ≡ n
    → length b ≡ n
    → Erased (o ∷ p ∷ q ∷ []) (a ∷ b ∷ plus a b ∷ [])
    → 2 ≤ available_count (o ∷ p ∷ q ∷ [])
    → without_one (o ∷ p ∷ q ∷ []) ≡ some (some a ∷ some b ∷ some (plus a b) ∷ [])
unfolding available_count keep
restores n a b (some x) (some y) none la lb h enough = rw (h.0, h.1.0) refl
restores n a b (some x) (some y) (some z) la lb h enough = rw (h.0, h.1.0) refl
restores n a b (some x) none (some z) la lb h enough = rw (h.0, h.1.0, minus-plus a b n la lb) refl
restores n a b none (some y) (some z) la lb h enough =
    rw (h.0, h.1.0, minus-plus_right a b n la lb) refl
restores n a b (some x) none none la lb h enough = absurd (omega arith)
restores n a b none (some y) none la lb h enough = absurd (omega arith)
restores n a b none none (some z) la lb h enough = absurd (omega arith)
restores n a b none none none la lb h enough = absurd (omega arith)

three :
    (os : List (Option (List ℕ)))
    → length os ≡ 3
    → (o : Option (List ℕ)) × (p : Option (List ℕ)) × (q : Option (List ℕ)) × (os ≡ o ∷ p ∷ q ∷ [])
three [] h = absurd (omega arith)
three (o ∷ []) h = absurd (omega arith)
three (o ∷ p ∷ []) h = absurd (omega arith)
three (o ∷ p ∷ q ∷ []) h = (o, p, q, refl)
three (o ∷ p ∷ q ∷ r ∷ os) h = absurd (omega arith)

pair_of :
    (n : ℕ) (a b : List ℕ)
    → length a ≡ n
    → length b ≡ n
    → (parity : List (List ℕ)) × (length parity ≡ 1)
      × (with_sum (a ∷ b ∷ parity_shards n 1) ≡ some (a ∷ b ∷ parity))
      × ((os : List (Option (List ℕ)))
          → Erased os (a ∷ b ∷ parity)
          → 2 ≤ available_count os
          → without_one os ≡ some (map (λ (s : List ℕ). some s) (a ∷ b ∷ parity)))
unfolding parity_shards
pair_of n a b la lb = (
  plus a b ∷ [],
  refl,
  refl,
  λ os h enough.
      let (o, p, q, is) = three os (length-Erased os (a ∷ b ∷ plus a b ∷ []) h) in
      rw is (
        restores n a b o p q la lb
          (subst (λ (xs : List (Option (List ℕ))). Erased xs (a ∷ b ∷ plus a b ∷ [])) is h)
          (subst (λ (xs : List (Option (List ℕ))). 2 ≤ available_count xs) is enough)),
)

numbers : (k m : ℕ) → (nat_eq k 2 && nat_eq m 1) ≡ true → (k ≡ 2) × (m ≡ 1)
numbers k m h = ground arith

pub sums-Sound : Sound sums
sums-Sound k m n [] accepted two pos sizes =
    let (kk, mm) = numbers k m accepted in absurd (omega (arith, two, kk))
sums-Sound k m n (a ∷ []) accepted two pos sizes =
    let (kk, mm) = numbers k m accepted in absurd (omega (arith, two, kk))
sums-Sound k m n (a ∷ b ∷ []) accepted two pos sizes =
    let (kk, mm) = numbers k m accepted in rw (kk, mm) (pair_of n a b sizes.0 sizes.1.0)
sums-Sound k m n (a ∷ b ∷ c ∷ ds) accepted two pos sizes =
    let (kk, mm) = numbers k m accepted in absurd (omega (arith, two, kk))

abbrev pub codec : ErasureCodec
codec = record { data_count = 2; parity_count = 1 }

-- Five bytes, of which the first fragment is lost.
abbrev pub five : List ℕ
five = 1 ∷ 2 ∷ 3 ∷ 4 ∷ 5 ∷ []

abbrev fragment : ℕ → Bool → List ℕ → Fragment
fragment index is_data bytes = record { index = index; is_data = is_data; data_bytes = bytes }

abbrev fragments : List Fragment
fragments =
    fragment 0 true (1 ∷ 2 ∷ 3 ∷ [])
    ∷ fragment 1 true (4 ∷ 5 ∷ 0 ∷ [])
    ∷ fragment 2 false (5 ∷ 7 ∷ 3 ∷ [])
    ∷ []

abbrev left_over : List (Option Fragment)
left_over =
    none ∷ some (fragment 1 true (4 ∷ 5 ∷ 0 ∷ [])) ∷ some (fragment 2 false (5 ∷ 7 ∷ 3 ∷ [])) ∷ []

decode-encode_example : decode sums codec left_over 5 ≡ ok five
unfolding new encode fragment_size div_ceil data_shards data_shard parity_shards to_fragments take
    drop zeros available keep
decode-encode_example =
    decode-encode sums sums-Sound 2 1 codec five fragments left_over refl (ground arith) refl
      (refl, (refl, tt)) (ground arith)

abbrev volume : CachedVolumeInfo
volume = record {
  volume_id = 1;
  size_bytes = 64;
  block_size = 2;
  protection = erasure_coded 2 1;
  extent_mappings = [];
}

-- Fragments as they are after a write of block 6, which is the third of its extent.
abbrev write_six : ℕ → List (ℕ × Option (List ℕ))
write_six extent = if nat_eq extent 6 then (0, some (1 ∷ [])) ∷ [] else []

elsewhere :
    (extent : ℕ)
    → extent ≢ written_extent volume (record { start = 6; stop = 7 })
    → write_six extent ≡ []
unfolding written_extent
elsewhere extent apart = let other : nat_eq extent 6 ≡ false = ground arith in rw other refl

written_extent-lost_example :
    read_ec_block_data sums (λ e. 1 ∷ 2 ∷ []) write_six volume.protection 4 6 2
    ≡ read_ec_block_data sums (λ e. 1 ∷ 2 ∷ []) (λ e. []) volume.protection 4 6 2
written_extent-lost_example =
    written_extent-lost sums volume (record { start = 6; stop = 7 }) 4 6 2 (λ e. 1 ∷ 2 ∷ [])
      (λ e. []) write_six (ground arith) (ground arith) elsewhere
