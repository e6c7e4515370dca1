-- ===== src/Storage/Placement.antt =====
-- crates/blockyard-storage/src/placement.rs: the disks that the extents of a volume are placed on. The
-- identifiers of the extents are left out, and an index out of range, which is a panic, is none.
use blockyard.Common.{
  ℕ-eq, ℕ, zero, suc, ◌+◌, ◌-◌, ◌/◌, ◌%◌, Bool, true, false, ◌&&◌, Option, none, some, is_some,
  List, [], ◌∷◌, ◌++◌, map, if◌then◌else◌, ltb, nat_eq, length, keep,
}
use blockyard.Common.Maps.{Map, get, insert}
use blockyard.DiskState.{DiskState, allows_allocation}
use blockyard.Protection.{ProtectionPolicy, replicated, erasure_coded, validate}
use blockyard.Client.Cache.{div_ceil}

pub record PlacementDisk : Type 0 where
  pub disk_id : ℕ
  pub node_id : ℕ
  pub capacity_bytes : ℕ
  pub used_bytes : ℕ
  pub state : DiskState

unfoldable pub free_bytes : PlacementDisk → ℕ
free_bytes d = d.capacity_bytes - d.used_bytes

pub record ExtentPlacement : Type 0 where
  pub primary_disk : ℕ
  pub replica_disks : List ℕ
  pub fragment_disks : List ℕ

pub data PlacementError : Type 0 where
  insufficient_nodes : ℕ → ℕ → PlacementError
  no_healthy_disks invalid_policy : PlacementError

pub data PlacementResult : Type 0 where
  placed : List ExtentPlacement → PlacementResult
  refused : PlacementError → PlacementResult
  panicked : PlacementResult

-- A node with its disks.
abbrev pub NodeDisks : Type 0
NodeDisks = ℕ × List PlacementDisk

abbrev pub or_empty : Option (List PlacementDisk) → List PlacementDisk
or_empty none = []
or_empty (some ds) = ds

unfoldable pub is_listed : ℕ → List ℕ → Bool
is_listed k [] = false
is_listed k (n ∷ ns) = if nat_eq n k then true else is_listed k ns

-- The loop that groups the disks by their nodes.
unfoldable pub group_disks :
    List ℕ → List PlacementDisk → Map ℕ (List PlacementDisk) → Map ℕ (List PlacementDisk)
unfolding is_listed
group_disks nodes [] m = m
group_disks nodes (d ∷ ds) m = group_disks nodes ds (
    if is_listed d.node_id nodes
    then insert d.node_id (or_empty (get d.node_id m) ++ (d ∷ [])) m
    else m)

-- The stable sorts by falling free space: of a node's disks, and of the nodes.
module _ {A : Type 0} (size : A → ℕ) where
  unfoldable pub insert_by_size : A → List A → List A
  insert_by_size x [] = x ∷ []
  insert_by_size x (y ∷ ys) = if ltb (size x) (size y) then y ∷ insert_by_size x ys else x ∷ y ∷ ys

  unfoldable pub sort_by_size : List A → List A
  unfolding insert_by_size
  sort_by_size [] = []
  sort_by_size (x ∷ xs) = insert_by_size x (sort_by_size xs)

unfoldable pub total_free : List PlacementDisk → ℕ
unfolding free_bytes
total_free [] = 0
total_free (d ∷ ds) = free_bytes d + total_free ds

unfoldable pub sort_disks : NodeDisks → NodeDisks
unfolding sort_by_size free_bytes
sort_disks (k, ds) = (k, sort_by_size free_bytes ds)

unfoldable pub node_space : NodeDisks → ℕ
unfolding total_free
node_space (k, ds) = total_free ds

unfoldable pub sorted_nodes : List PlacementDisk → List ℕ → List NodeDisks
unfolding group_disks sort_by_size sort_disks node_space
sorted_nodes disks nodes = sort_by_size node_space (map sort_disks (group_disks nodes disks []))

abbrev pub nth : {A : Type 0} → List A → ℕ → Option A
nth [] i = none
nth (x ∷ xs) zero = some x
nth (x ∷ xs) (suc i) = nth xs i

abbrev pub push_front :
    Option PlacementDisk → Option (List PlacementDisk) → Option (List PlacementDisk)
push_front (some d) (some ds) = some (d ∷ ds)
push_front _ _ = none

-- The disk of a node that the extent of a number uses.
unfoldable pub disk_of : ℕ → ℕ → Option NodeDisks → Option PlacementDisk
disk_of i available none = none
disk_of i available (some (k, ds)) = nth ds ((i / available) % length ds)

-- The disks from the `j`-th on, `count` of them, for the extent of number `i`.
unfoldable pub select_disks : ℕ → List NodeDisks → ℕ → ℕ → Option (List PlacementDisk)
unfolding disk_of
select_disks i nodes j zero = some []
select_disks i nodes j (suc count) =
    push_front (disk_of i (length nodes) (nth nodes ((i % length nodes + j) % length nodes)))
      (select_disks i nodes (suc j) count)

abbrev pub ids : List PlacementDisk → List ℕ
ids ds = map (λ (d : PlacementDisk). d.disk_id) ds

-- The placement of an extent on disks, of which there is at least one.
unfoldable pub to_placement : ProtectionPolicy → List PlacementDisk → Option ExtentPlacement
to_placement p [] = none
to_placement (replicated replicas) (d ∷ ds) =
    some (record { primary_disk = d.disk_id; replica_disks = ids ds; fragment_disks = [] })
to_placement (erasure_coded data_chunks parity_chunks) (d ∷ ds) =
    some (record { primary_disk = d.disk_id; replica_disks = []; fragment_disks = ids (d ∷ ds) })

abbrev pub place_on : ProtectionPolicy → Option (List PlacementDisk) → Option ExtentPlacement
place_on p none = none
place_on p (some ds) = to_placement p ds

abbrev pub add_placement : Option ExtentPlacement → PlacementResult → PlacementResult
add_placement (some e) (placed es) = placed (e ∷ es)
add_placement _ _ = panicked

-- The loop over the extents from number `i` on.
unfoldable pub place_extents : ProtectionPolicy → ℕ → List NodeDisks → ℕ → ℕ → PlacementResult
unfolding select_disks to_placement
place_extents p required nodes i zero = placed []
place_extents p required nodes i (suc more) =
    add_placement (place_on p (select_disks i nodes 0 required))
      (place_extents p required nodes (suc i) more)

unfoldable pub policy_nodes : ProtectionPolicy → ℕ
policy_nodes (replicated replicas) = replicas
policy_nodes (erasure_coded data_chunks parity_chunks) = (data_chunks + parity_chunks) % 256

unfoldable pub num_extents : ℕ → ℕ → ℕ
unfolding div_ceil
num_extents size_bytes extent_size =
    if nat_eq size_bytes 0 then 0 else div_ceil size_bytes extent_size

unfoldable pub place_on_nodes : ProtectionPolicy → ℕ → List NodeDisks → PlacementResult
unfolding place_extents policy_nodes
place_on_nodes p count nodes =
    if ltb (length nodes) (policy_nodes p)
    then refused (insufficient_nodes (policy_nodes p) (length nodes))
    else place_extents p (policy_nodes p) nodes 0 count

unfoldable pub allocatable : List PlacementDisk → List PlacementDisk
unfolding keep
allocatable disks = keep (λ (d : PlacementDisk). allows_allocation d.state) disks

abbrev pub on_allocatable :
    List PlacementDisk → (List PlacementDisk → PlacementResult) → PlacementResult
on_allocatable [] next = refused no_healthy_disks
on_allocatable (d ∷ ds) next = next (d ∷ ds)

-- `place_volume` of a volume by its size, extent size and policy. An extent size of 0 is a panic.
unfoldable pub place_volume :
    ℕ → ℕ → ProtectionPolicy → List PlacementDisk → List ℕ → PlacementResult
unfolding allocatable sorted_nodes num_extents place_on_nodes
place_volume size_bytes extent_size p disks nodes =
    if is_some (validate p)
    then refused invalid_policy
    else on_allocatable (allocatable disks) (λ (ds : List PlacementDisk).
      if nat_eq extent_size 0 && ltb 0 size_bytes
      then panicked
      else place_on_nodes p (num_extents size_bytes extent_size) (sorted_nodes ds nodes))
