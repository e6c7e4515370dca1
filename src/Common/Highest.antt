-- ===== src/Common/Highest.antt =====
-- The highest of some numbers.
use Prim.Native.Nat.{ℕ, ◌≤◌, max}
use mathlib.Core.List.{List, [], ◌∷◌}
use native.Mathlib.Omega.{arith}
use blockyard.Common.Lists.{All}

abbrev pub Below : ℕ → ℕ → Type 0
Below t v = v ≤ t

-- The highest of a number and a list of them.
unfoldable pub highest : ℕ → List ℕ → ℕ
highest w [] = w
highest w (v ∷ vs) = max v (highest w vs)

pub highest-above : (w : ℕ) (vs : List ℕ) → w ≤ highest w vs
unfolding highest
highest-above w [] = omega arith
highest-above w (v ∷ vs) = omega (arith, highest-above w vs)

pub All-Below : (s t : ℕ) → s ≤ t → (vs : List ℕ) → All (Below s) vs → All (Below t) vs
All-Below s t le [] us = tt
All-Below s t le (v ∷ vs) (u, us) = (omega arith, All-Below s t le vs us)

pub highest-Below : (w : ℕ) (vs : List ℕ) → All (Below (highest w vs)) vs
unfolding highest
highest-Below w [] = tt
highest-Below w (v ∷ vs) = (
  omega arith,
  All-Below (highest w vs) (highest w (v ∷ vs)) (omega arith) vs (highest-Below w vs),
)

pub highest-least : (t w : ℕ) (vs : List ℕ) → w ≤ t → All (Below t) vs → highest w vs ≤ t
unfolding highest
highest-least t w [] below us = below
highest-least t w (v ∷ vs) below (u, us) = omega (arith, highest-least t w vs below us)
