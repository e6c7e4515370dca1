-- ===== src/Storage/LiveNodes.antt =====
-- Which nodes a volume can be placed on (crates/blockyard-storage/src/placement.rs).
use blockyard.Common.{
  ℕ-eq, ℕ, suc, ◌≡◌, ◌≢◌, refl, ap, ◌∙◌, Bool, true, false, Bool-cases, ◌&&◌, ◌||◌, inl, inr, List,
  [], ◌∷◌, ◌++◌, map, if◌then◌else◌, nat_eq, ltb, length, All, arith, nat_eq_iff,
}
use mathlib.Core.Path.{subst}
use blockyard.Common.Maps.{Map, get, insert}
use blockyard.Storage.Placement.{
  PlacementDisk, NodeDisks, or_empty, is_listed, group_disks, insert_by_size, sort_by_size,
  sort_disks, node_space, sorted_nodes,
}
use blockyard.Storage.Sorting.{Other, Distinct}

abbrev pub group_node : NodeDisks → ℕ
group_node g = g.0

-- Some disk is of a node.
abbrev pub has_disk : ℕ → List PlacementDisk → Bool
has_disk k [] = false
has_disk k (d ∷ ds) = if nat_eq d.node_id k then true else has_disk k ds

abbrev pub NoRepeat : List ℕ → Type 0
NoRepeat [] = Unit
NoRepeat (n ∷ ns) = All (λ (m : ℕ). m ≢ n) ns × NoRepeat ns

-- The listed nodes that have a disk of some, each once.
abbrev pub AreLive : List PlacementDisk → List ℕ → List ℕ → Type 0
AreLive disks nodes live =
    NoRepeat live × ((k : ℕ) → is_listed k live ≡ (is_listed k nodes && has_disk k disks))

abbrev has : ℕ → List NodeDisks → Bool
has k gs = is_listed k (map group_node gs)

insert_by_size-has :
    (k : ℕ) (g : NodeDisks) (gs : List NodeDisks)
    → has k (insert_by_size node_space g gs) ≡ has k (g ∷ gs)
unfolding insert_by_size is_listed
insert_by_size-has k g [] = refl
insert_by_size-has k g (h ∷ gs) = elim (Bool-cases (ltb (node_space g) (node_space h))) [
  | inl e ↦ rw e (ground (arith, insert_by_size-has k g gs))
  | inr e ↦ rw e refl
]

sort_by_size-has : (k : ℕ) (gs : List NodeDisks) → has k (sort_by_size node_space gs) ≡ has k gs
unfolding sort_by_size is_listed
sort_by_size-has k [] = refl
sort_by_size-has k (g ∷ gs) =
    insert_by_size-has k g (sort_by_size node_space gs)
    ∙ ap (λ (b : Bool). if nat_eq g.0 k then true else b) (sort_by_size-has k gs)

sort_disks-has : (k : ℕ) (gs : List NodeDisks) → has k (map sort_disks gs) ≡ has k gs
unfolding sort_disks is_listed
sort_disks-has k [] = refl
sort_disks-has k (g ∷ gs) =
    ap (λ (b : Bool). if nat_eq g.0 k then true else b) (sort_disks-has k gs)

insert-has :
    (k j : ℕ) (v : List PlacementDisk) (m : Map ℕ (List PlacementDisk))
    → has k (insert j v m) ≡ (nat_eq j k || has k m)
unfolding insert is_listed
insert-has k j v [] = ground arith
insert-has k j v ((i, w) ∷ m) = ground (arith, nat_eq_iff i j, insert-has k j v m)

group_disks-has :
    (k : ℕ) (nodes : List ℕ) (disks : List PlacementDisk) (m : Map ℕ (List PlacementDisk))
    → has k (group_disks nodes disks m) ≡ (has k m || (is_listed k nodes && has_disk k disks))
unfolding group_disks
group_disks-has k nodes [] m = ground arith
group_disks-has k nodes (d ∷ ds) m =
    let v = or_empty (get d.node_id m) ++ (d ∷ []) in
    elim (Bool-cases (is_listed d.node_id nodes)) [
      | inl e ↦ elim (Bool-cases (nat_eq d.node_id k)) [
        | inl same ↦
            let listed : is_listed k nodes ≡ true =
              subst (λ (n : ℕ). is_listed n nodes ≡ true) ((nat_eq_iff d.node_id k).0 same) e in
            rw (e, same)
              (group_disks-has k nodes ds (insert d.node_id v m)
                ∙ ground (arith, insert-has k d.node_id v m))
        | inr other ↦
            rw (e, other)
              (group_disks-has k nodes ds (insert d.node_id v m)
                ∙ ground (arith, insert-has k d.node_id v m))
      ]
      | inr e ↦ elim (Bool-cases (nat_eq d.node_id k)) [
        | inl same ↦
            let unlisted : is_listed k nodes ≡ false =
              subst (λ (n : ℕ). is_listed n nodes ≡ false) ((nat_eq_iff d.node_id k).0 same) e in
            rw (e, same) (group_disks-has k nodes ds m ∙ ground arith)
        | inr other ↦ rw (e, other) (group_disks-has k nodes ds m)
      ]
    ]

Other-NoRepeat :
    (n : ℕ) (gs : List NodeDisks) → All (Other n) gs → All (λ (m : ℕ). m ≢ n) (map group_node gs)
Other-NoRepeat n [] os = tt
Other-NoRepeat n (g ∷ gs) (o, os) = (o, Other-NoRepeat n gs os)

Distinct-NoRepeat : (gs : List NodeDisks) → Distinct gs → NoRepeat (map group_node gs)
Distinct-NoRepeat [] ds = tt
Distinct-NoRepeat (g ∷ gs) (d, ds) = (Other-NoRepeat g.0 gs d, Distinct-NoRepeat gs ds)

length-nodes : (gs : List NodeDisks) → length (map group_node gs) ≡ length gs
length-nodes [] = refl
length-nodes (g ∷ gs) = ap suc (length-nodes gs)

-- The nodes that placement goes over are the live ones.
pub sorted_nodes-AreLive :
    (disks : List PlacementDisk) (nodes : List ℕ)
    → Distinct (sorted_nodes disks nodes)
    → AreLive disks nodes (map group_node (sorted_nodes disks nodes))
      × (length (map group_node (sorted_nodes disks nodes)) ≡ length (sorted_nodes disks nodes))
unfolding sorted_nodes
sorted_nodes-AreLive disks nodes apart = (
  (
    Distinct-NoRepeat (sorted_nodes disks nodes) apart,
    λ k.
        sort_by_size-has k (map sort_disks (group_disks nodes disks []))
        ∙ sort_disks-has k (group_disks nodes disks [])
        ∙ group_disks-has k nodes disks [],
  ),
  length-nodes (sorted_nodes disks nodes),
)
