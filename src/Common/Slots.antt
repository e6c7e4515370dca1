-- ===== src/Common/Slots.antt =====
-- Fragments by their index, of which some are missing (`Vec<Option<..>>` in repair.rs of
-- crates/blockyard-storage/src/background and in block_handler.rs of crates/blockyard-ublk/src).
use Prim.Native.Nat.{ℕ, zero, suc}
use mathlib.Core.Option.{Option, none, some}
use mathlib.Core.List.{List, [], ◌∷◌}
use blockyard.Common.Tests.{is_some}
use blockyard.Common.Lists.{length, keep}

unfoldable pub set_fragment : ℕ → List ℕ → List (Option (List ℕ)) → List (Option (List ℕ))
set_fragment idx bytes [] = []
set_fragment zero bytes (f ∷ fs) = some bytes ∷ fs
set_fragment (suc idx) bytes (f ∷ fs) = f ∷ set_fragment idx bytes fs

unfoldable pub no_fragments : ℕ → List (Option (List ℕ))
no_fragments zero = []
no_fragments (suc total) = none ∷ no_fragments total

unfoldable pub available_count : List (Option (List ℕ)) → ℕ
unfolding keep
available_count fragments = length (keep (λ (f : Option (List ℕ)). is_some f) fragments)
