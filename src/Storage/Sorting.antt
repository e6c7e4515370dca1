-- ===== src/Storage/Sorting.antt =====
-- What the sorts keep of nodes and their disks, and the places that one round of them visits
-- (crates/blockyard-storage/src/placement.rs).
use blockyard.Common.{
  ℕ-eq, ℕ, zero, suc, ◌≡◌, ◌≢◌, ◌≤◌, ◌<◌, refl, sym, ap, ◌∙◌, ◌+◌, ◌*◌, ◌/◌, ◌%◌, inl, inr, true,
  Bool-cases, some, List, [], ◌∷◌, ltb, length, All, arith,
}
use mathlib.Core.Path.{subst}
use native.Mathlib.Nat.{div-add-mod, mul_comm}
use blockyard.DiskState.{allows_allocation}
use blockyard.Storage.Placement.{PlacementDisk, NodeDisks, insert_by_size, sort_by_size, nth}

-- A disk of a node that takes new extents.
abbrev pub OfNode : ℕ → PlacementDisk → Type 0
OfNode k d = (d.node_id ≡ k) × (allows_allocation d.state ≡ true)

-- A node with disks of its own, at least one.
abbrev pub Owns : NodeDisks → Type 0
Owns (k, ds) = All (OfNode k) ds × (0 < length ds)

abbrev pub Other : ℕ → NodeDisks → Type 0
Other k g = g.0 ≢ k

-- No two of the nodes are the same.
abbrev pub Distinct : List NodeDisks → Type 0
Distinct [] = Unit
Distinct (g ∷ gs) = All (Other g.0) gs × Distinct gs

module _ {A : Type 0} (size : A → ℕ) (P : A → Type 0) where
  pub insert_by_size-All : (x : A) (xs : List A) → P x → All P xs → All P (insert_by_size size x xs)
  unfolding insert_by_size
  insert_by_size-All x [] p ps = (p, tt)
  insert_by_size-All x (y ∷ ys) p (q, qs) = elim (Bool-cases (ltb (size x) (size y))) [
    | inl e ↦ rw e (q, insert_by_size-All x ys p qs)
    | inr e ↦ rw e (p, (q, qs))
  ]

  pub sort_by_size-All : (xs : List A) → All P xs → All P (sort_by_size size xs)
  unfolding sort_by_size
  sort_by_size-All [] ps = tt
  sort_by_size-All (x ∷ xs) (p, ps) =
      insert_by_size-All x (sort_by_size size xs) p (sort_by_size-All xs ps)

module _ {A : Type 0} (size : A → ℕ) where
  pub length-insert_by_size :
      (x : A) (xs : List A) → length (insert_by_size size x xs) ≡ length xs + 1
  unfolding insert_by_size
  length-insert_by_size x [] = refl
  length-insert_by_size x (y ∷ ys) = ground (arith, length-insert_by_size x ys)

  pub length-sort_by_size : (xs : List A) → length (sort_by_size size xs) ≡ length xs
  unfolding sort_by_size
  length-sort_by_size [] = refl
  length-sort_by_size (x ∷ xs) =
      omega (arith, length-insert_by_size x (sort_by_size size xs), length-sort_by_size xs)

pub insert_by_size-Distinct :
    (size : NodeDisks → ℕ) (g : NodeDisks) (gs : List NodeDisks)
    → All (Other g.0) gs
    → Distinct gs
    → Distinct (insert_by_size size g gs)
unfolding insert_by_size
insert_by_size-Distinct size g [] os ds = (tt, tt)
insert_by_size-Distinct size g (h ∷ hs) (o, os) (ds, dss) =
    elim (Bool-cases (ltb (size g) (size h))) [
      | inl e ↦ rw e (
        insert_by_size-All size (Other h.0) g hs (λ same. o (sym same)) ds,
        insert_by_size-Distinct size g hs os dss,
      )
      | inr e ↦ rw e ((o, os), (ds, dss))
    ]

pub sort_by_size-Distinct :
    (size : NodeDisks → ℕ) (gs : List NodeDisks) → Distinct gs → Distinct (sort_by_size size gs)
unfolding sort_by_size
sort_by_size-Distinct size [] ds = tt
sort_by_size-Distinct size (g ∷ gs) (d, ds) =
    insert_by_size-Distinct size g (sort_by_size size gs) (sort_by_size-All size (Other g.0) gs d)
      (sort_by_size-Distinct size gs ds)

-- Two places of the list hold two nodes.
pub nth-All :
    {A : Type 0} (P : A → Type 0) (xs : List A) (i : ℕ) (x : A) → All P xs → nth xs i ≡ some x → P x
nth-All P [] i x ps h = cc
nth-All P (y ∷ ys) zero x (p, ps) h = let same : y ≡ x = cc in subst P same p
nth-All P (y ∷ ys) (suc i) x (p, ps) h = nth-All P ys i x ps h

pub nth-Distinct :
    (gs : List NodeDisks) (i j : ℕ) (g h : NodeDisks)
    → Distinct gs
    → nth gs i ≡ some g
    → nth gs j ≡ some h
    → i ≢ j
    → g.0 ≢ h.0
nth-Distinct [] i j g h ds a b apart = cc
nth-Distinct (f ∷ fs) zero zero g h (d, ds) a b apart = absurd (apart refl)
nth-Distinct (f ∷ fs) zero (suc j) g h (d, ds) a b apart =
    let same : f ≡ g = cc in
    let other = nth-All (Other f.0) fs j h d b in
    λ e. other (sym (ap (λ (x : NodeDisks). x.0) same ∙ e))
nth-Distinct (f ∷ fs) (suc i) zero g h (d, ds) a b apart =
    let same : f ≡ h = cc in
    let other = nth-All (Other f.0) fs i g d a in
    λ e. other (e ∙ sym (ap (λ (x : NodeDisks). x.0) same))
nth-Distinct (f ∷ fs) (suc i) (suc j) g h (d, ds) a b apart =
    nth-Distinct fs i j g h ds a b (λ e. apart (ap suc e))

pub mul_mono : (a b n : ℕ) → a ≤ b → a * n ≤ b * n
mul_mono a b n le = grind arith

-- Two offsets within one round lead to two places.
pub rotated : (start i j n : ℕ) → start < n → i < j → j < n + i → (start + i) % n ≢ (start + j) % n
rotated start i j n inside before round = λ same.
    let a = (start + i) / n in
    let b = (start + j) / n in
    let first = div-add-mod (start + i) n in
    let second = div-add-mod (start + j) n in
    let swap = mul_comm n a in
    let swap' = mul_comm n b in
    elim (Bool-cases (ltb a b)) [
      | inl e ↦
          let later : a + 1 ≤ b = ground arith in
          absurd (omega (arith, first, second, swap, swap', mul_mono (a + 1) b n later, same))
      | inr e ↦
          let sooner : b ≤ a = ground arith in
          absurd (omega (arith, first, second, swap, swap', mul_mono b a n sooner, same))
    ]
