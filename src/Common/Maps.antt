-- ===== src/Common/Maps.antt =====
-- `BTreeMap` and `HashMap` as association lists, by their observable operations. The order of
-- iteration is not modelled: no statement depends on it.
use mathlib.Core.Path.{◌≡◌, refl}
use mathlib.Core.Bool.{Bool, false}
use mathlib.Core.Option.{Option, none, some}
use mathlib.Core.List.{List, [], ◌∷◌}
use native.Mathlib.Omega.{arith}
use blockyard.Common.Tests.{if◌then◌else◌, is_some}
use blockyard.Common.Keys.{Key, ◌==◌, ==_refl}

abbrev pub Map {ℓ} : Type ℓ → Type ℓ → Type ℓ
Map K V = List (K × V)

-- What `retain` leaves at a key.
abbrev pub kept {ℓ} : {V : Type ℓ} → (V → Bool) → Option V → Option V
kept p none = none
kept p (some v) = if p v then some v else none

module _ {ℓ} {K V : Type ℓ} where
  unfoldable pub values : Map K V → List V
  values [] = []
  values ((k, v) ∷ m) = v ∷ values m

  -- `retain` by a test on the value.
  unfoldable pub retain : (V → Bool) → Map K V → Map K V
  retain p [] = []
  retain p ((k, v) ∷ m) = if p v then (k, v) ∷ retain p m else retain p m

module _ {ℓ} {K V : Type ℓ} ⦃e : Key K⦄ where
  unfoldable pub get : K → Map K V → Option V
  get k [] = none
  get k ((j, v) ∷ m) = if j == k then some v else get k m

  unfoldable pub insert : K → V → Map K V → Map K V
  insert k v [] = (k, v) ∷ []
  insert k v ((j, w) ∷ m) = if j == k then (j, v) ∷ m else (j, w) ∷ insert k v m

  unfoldable pub remove : K → Map K V → Map K V
  remove k [] = []
  remove k ((j, w) ∷ m) = if j == k then remove k m else (j, w) ∷ remove k m

  abbrev pub contains_key : K → Map K V → Bool
  contains_key k m = is_some (get k m)

  -- No key twice: every stored key is absent from what follows it.
  abbrev pub IsDistinct : Map K V → Type 0
  IsDistinct [] = Unit
  IsDistinct ((k, v) ∷ m) = (contains_key k m ≡ false) × IsDistinct m

  pub get-insert :
      (k j : K) (v : V) (m : Map K V) → get j (insert k v m) ≡ (if k == j then some v else get j m)
  unfolding get insert
  get-insert k j v [] = refl
  get-insert k j v ((i, w) ∷ m) =
      ground (arith, e.agree_iff k j, e.agree_iff i k, e.agree_iff i j, get-insert k j v m)

  pub get-remove : (k j : K) (m : Map K V) → get j (remove k m) ≡ (if k == j then none else get j m)
  unfolding get remove
  get-remove k j [] = ground arith
  get-remove k j ((i, w) ∷ m) =
      ground (arith, e.agree_iff k j, e.agree_iff i k, e.agree_iff i j, get-remove k j m)

  pub get-insert_self : (k : K) (v : V) (m : Map K V) → get k (insert k v m) ≡ some v
  get-insert_self k v m = ground (arith, get-insert k k v m, ==_refl k)

  pub insert-IsDistinct : (k : K) (v : V) (m : Map K V) → IsDistinct m → IsDistinct (insert k v m)
  unfolding get insert
  insert-IsDistinct k v [] d = (refl, tt)
  insert-IsDistinct k v ((j, w) ∷ m) d =
      ground
        (arith, e.agree_iff j k, e.agree_iff k j, get-insert k j v m, insert-IsDistinct k v m d.1)

  pub remove-IsDistinct : (k : K) (m : Map K V) → IsDistinct m → IsDistinct (remove k m)
  unfolding remove
  remove-IsDistinct k [] d = tt
  remove-IsDistinct k ((j, w) ∷ m) d = ground (arith, get-remove k j m, remove-IsDistinct k m d.1)

  retain-absent :
      (p : V → Bool) (k : K) (m : Map K V)
      → contains_key k m ≡ false
      → contains_key k (retain p m) ≡ false
  unfolding get retain
  retain-absent p k [] h = refl
  retain-absent p k ((j, w) ∷ m) h = ground (arith, retain-absent p k m)

  pub retain-IsDistinct : (p : V → Bool) (m : Map K V) → IsDistinct m → IsDistinct (retain p m)
  unfolding retain
  retain-IsDistinct p [] d = tt
  retain-IsDistinct p ((j, w) ∷ m) d =
      ground (arith, retain-absent p j m, retain-IsDistinct p m d.1)

  pub get-retain :
      (p : V → Bool) (k : K) (m : Map K V) → IsDistinct m → get k (retain p m) ≡ kept p (get k m)
  unfolding get retain
  get-retain p k [] d = refl
  get-retain p k ((j, w) ∷ m) d =
      ground (arith, e.agree_iff j k, retain-absent p k m, get-retain p k m d.1)
