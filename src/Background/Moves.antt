-- ===== src/Background/Moves.antt =====
-- The moves of a rebalance (crates/blockyard-storage/src/background/rebalance.rs).
use blockyard.Common.{ℕ, zero, suc, ◌≡◌, refl, sym, ap, ◌∙◌, none, some, List, [], ◌∷◌, ◌++◌, map}
use blockyard.Background.Rebalance.{RebalanceMove, move_of, move_extents, plan_moves}

-- The first elements of a list.
abbrev pub at_most {ℓ} : {A : Type ℓ} → ℕ → List A → List A
at_most zero xs = []
at_most (suc n) [] = []
at_most (suc n) (x ∷ xs) = x ∷ at_most n xs

-- Every extent of every source, for one target.
abbrev pub all_moves : ℕ → List (ℕ × List (ℕ × ℕ)) → List RebalanceMove
all_moves target [] = []
all_moves target ((source, extents) ∷ rest) =
    map (λ (e : ℕ × ℕ). move_of source e target) extents ++ all_moves target rest

move_extents-at_most :
    (target source n : ℕ) (extents : List (ℕ × ℕ)) (rest : List RebalanceMove)
    → at_most n (map (λ (e : ℕ × ℕ). move_of source e target) extents ++ rest)
      ≡ (move_extents (some target) source n extents).0
        ++ at_most (move_extents (some target) source n extents).1 rest
unfolding move_extents
move_extents-at_most target source zero extents rest = refl
move_extents-at_most target source (suc n) [] rest = refl
move_extents-at_most target source (suc n) (e ∷ es) rest =
    ap (λ (ms : List RebalanceMove). move_of source e target ∷ ms)
      (move_extents-at_most target source n es rest)

move_extents-none :
    (source n : ℕ) (extents : List (ℕ × ℕ)) → move_extents none source n extents ≡ ([], n)
unfolding move_extents
move_extents-none source zero extents = refl
move_extents-none source (suc n) [] = refl
move_extents-none source (suc n) (e ∷ es) = move_extents-none source (suc n) es

-- A plan with a disk under the average moves the extents of the disks over it, in their order and up to
-- the bound of a pass, all of them to the first disk under the average.
pub plan_moves-at_most :
    (target : ℕ) (others : List ℕ) (n : ℕ) (over_utilized : List (ℕ × List (ℕ × ℕ)))
    → plan_moves (target ∷ others) n over_utilized ≡ at_most n (all_moves target over_utilized)
unfolding plan_moves
plan_moves-at_most target others zero over_utilized = refl
plan_moves-at_most target others (suc n) [] = refl
plan_moves-at_most target others (suc n) ((source, extents) ∷ rest) =
    let left = (move_extents (some target) source (suc n) extents).1 in
    ap (λ (ms : List RebalanceMove). (move_extents (some target) source (suc n) extents).0 ++ ms)
      (plan_moves-at_most target others left rest)
    ∙ sym (move_extents-at_most target source (suc n) extents (all_moves target rest))

-- Without a disk under the average nothing is moved.
plan_moves-none :
    (n : ℕ) (over_utilized : List (ℕ × List (ℕ × ℕ))) → plan_moves [] n over_utilized ≡ []
unfolding plan_moves
plan_moves-none zero over_utilized = refl
plan_moves-none (suc n) [] = refl
plan_moves-none (suc n) ((source, extents) ∷ rest) =
    rw (move_extents-none source (suc n) extents) (plan_moves-none (suc n) rest)
