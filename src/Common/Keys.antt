-- ===== src/Common/Keys.antt =====
-- Equality of keys as an instance, for numbers and for texts.
use Prim.Native.Nat.{ℕ}
use Prim.Native.String.{String}
use mathlib.Core.Path.{◌≡◌, refl}
use mathlib.Core.Logic.{◌↔◌}
use mathlib.Core.Bool.{Bool, true}
use native.Mathlib.Omega.{arith}
use text.Mathlib.Text.{◌==◌ as str_eq}
use text.Mathlib.TextEquality.{eq_iff}
use blockyard.Common.Tests.{nat_eq}

-- The keys of a map, with the test by which they are compared.
pub record Key {ℓ} (A : Type ℓ) : Type ℓ where
  pub agree : A → A → Bool
  pub agree_iff : (j k : A) → (agree j k ≡ true) ↔ (j ≡ k)

pub nat_eq_iff : (m n : ℕ) → (nat_eq m n ≡ true) ↔ (m ≡ n)
nat_eq_iff m n = ground arith

instance abbrev pub ℕ-eq : Key ℕ
ℕ-eq = record { agree = nat_eq; agree_iff = nat_eq_iff }

instance abbrev pub String-eq : Key String
String-eq = record { agree = str_eq; agree_iff = eq_iff }

module _ {ℓ} {A : Type ℓ} ⦃e : Key A⦄ where
  infix 50 ◌==◌
  abbrev pub ◌==◌ : A → A → Bool
  j == k = e.agree j k

  pub ==_refl : (k : A) → (k == k) ≡ true
  ==_refl k = (e.agree_iff k k).1 refl
