-- ===== src/Storage/Spread.antt =====
-- No two pieces of an extent share a node (crates/blockyard-storage/src/placement.rs).
use blockyard.Common.{
  ℕ-eq, ℕ, ◌≡◌, ◌≢◌, refl, sym, inl, inr, true, Bool-cases, List, [], ◌∷◌, ◌++◌, map, nat_eq_iff,
  length-append, All, arith, ◌==◌,
}
use mathlib.Core.Path.{subst}
use blockyard.Common.Maps.{Map, get, insert}
use blockyard.DiskState.{allows_allocation}
use blockyard.Storage.Placement.{
  PlacementDisk, NodeDisks, or_empty, is_listed, group_disks, sort_disks, node_space, free_bytes,
  sorted_nodes,
}
use blockyard.Storage.Sorting.{
  OfNode, Owns, Other, Distinct, sort_by_size-All, length-sort_by_size, sort_by_size-Distinct,
}

insert-Other :
    (j k : ℕ) (v : List PlacementDisk) (m : Map ℕ (List PlacementDisk))
    → k ≢ j
    → All (Other j) m
    → All (Other j) (insert k v m)
unfolding insert
insert-Other j k v [] apart os = (apart, tt)
insert-Other j k v ((i, w) ∷ m) apart (o, os) = elim (Bool-cases (i == k)) [
  | inl e ↦ rw e (o, os)
  | inr e ↦ rw e (o, insert-Other j k v m apart os)
]

-- The groups of disks by their nodes.
insert-Distinct :
    (k : ℕ) (v : List PlacementDisk) (m : Map ℕ (List PlacementDisk))
    → Distinct m
    → Distinct (insert k v m)
unfolding insert
insert-Distinct k v [] ds = (tt, tt)
insert-Distinct k v ((j, w) ∷ m) (d, ds) = elim (Bool-cases (j == k)) [
  | inl e ↦ rw e (d, ds)
  | inr e ↦ rw e (
    insert-Other j k v m (λ same. cc (e, (nat_eq_iff j k).1 (sym same))) d,
    insert-Distinct k v m ds,
  )
]

insert-Owns :
    (k : ℕ) (v : List PlacementDisk) (m : Map ℕ (List PlacementDisk))
    → Owns (k, v)
    → All Owns m
    → All Owns (insert k v m)
unfolding insert
insert-Owns k v [] vs os = (vs, tt)
insert-Owns k v ((j, w) ∷ m) vs (o, os) = elim (Bool-cases (j == k)) [
  | inl e ↦
      let same : j ≡ k = (nat_eq_iff j k).0 e in
      rw e (subst (λ (i : ℕ). Owns (i, v)) (sym same) vs, os)
  | inr e ↦ rw e (o, insert-Owns k v m vs os)
]

append-All : {A : Type 0} (P : A → Type 0) (xs ys : List A) → All P xs → All P ys → All P (xs ++ ys)
append-All P [] ys ps qs = qs
append-All P (x ∷ xs) ys (p, ps) qs = (p, append-All P xs ys ps qs)

get-Owns :
    (k : ℕ) (m : Map ℕ (List PlacementDisk)) → All Owns m → All (OfNode k) (or_empty (get k m))
unfolding get
get-Owns k [] os = tt
get-Owns k ((j, w) ∷ m) (o, os) = elim (Bool-cases (j == k)) [
  | inl e ↦
      let same : j ≡ k = (nat_eq_iff j k).0 e in rw e (subst (λ (i : ℕ). All (OfNode i) w) same o.0)
  | inr e ↦ rw e (get-Owns k m os)
]

abbrev pub Takes : PlacementDisk → Type 0
Takes d = allows_allocation d.state ≡ true

group_disks_sound :
    (nodes : List ℕ) (disks : List PlacementDisk) (m : Map ℕ (List PlacementDisk))
    → All Takes disks
    → All Owns m
    → Distinct m
    → All Owns (group_disks nodes disks m) × Distinct (group_disks nodes disks m)
unfolding group_disks
group_disks_sound nodes [] m ts os ds = (os, ds)
group_disks_sound nodes (d ∷ disks) m (t, ts) os ds =
    elim (Bool-cases (is_listed d.node_id nodes)) [
      | inl e ↦
          let v = or_empty (get d.node_id m) ++ (d ∷ []) in
          let vs =
            append-All (OfNode d.node_id) (or_empty (get d.node_id m)) (d ∷ [])
              (get-Owns d.node_id m os) ((refl, t), tt) in
          rw e (
            group_disks_sound nodes disks (insert d.node_id v m) ts
              (insert-Owns d.node_id v m
                (vs, omega (arith, length-append (or_empty (get d.node_id m)) (d ∷ []))) os)
              (insert-Distinct d.node_id v m ds))
      | inr e ↦ rw e (group_disks_sound nodes disks m ts os ds)
    ]

sorted-Other : (k : ℕ) (gs : List NodeDisks) → All (Other k) gs → All (Other k) (map sort_disks gs)
unfolding sort_disks
sorted-Other k [] os = tt
sorted-Other k (g ∷ gs) (o, os) = (o, sorted-Other k gs os)

sorted_sound :
    (gs : List NodeDisks)
    → All Owns gs
    → Distinct gs
    → All Owns (map sort_disks gs) × Distinct (map sort_disks gs)
unfolding sort_disks
sorted_sound [] os ds = (tt, tt)
sorted_sound ((k, disks) ∷ gs) (o, os) (d, ds) =
    let (os', ds') = sorted_sound gs os ds in
    (
      (
        (
          sort_by_size-All free_bytes (OfNode k) disks o.0,
          omega (arith, length-sort_by_size free_bytes disks, o.1),
        ),
        os',
      ),
      (sorted-Other k gs d, ds'),
    )

pub sorted_nodes_sound :
    (disks : List PlacementDisk) (nodes : List ℕ)
    → All Takes disks
    → All Owns (sorted_nodes disks nodes) × Distinct (sorted_nodes disks nodes)
unfolding sorted_nodes
sorted_nodes_sound disks nodes ts =
    let (os, ds) = group_disks_sound nodes disks [] ts tt tt in
    let gs = group_disks nodes disks [] in
    let (os', ds') = sorted_sound gs os ds in
    (
      sort_by_size-All node_space Owns (map sort_disks gs) os',
      sort_by_size-Distinct node_space (map sort_disks gs) ds',
    )
