-- ===== src/DiskState.antt =====
-- crates/blockyard-common/src/disk_state.rs: the health state of a disk and its legal transitions.
use blockyard.Common.{Bool, true, false, ℕ, ◌+◌, ◌≤◌, ◌≡◌, arith}

pub data DiskState : Type 0 where
  healthy suspect degraded draining failed removed : DiskState

unfoldable pub allows_allocation : DiskState → Bool
allows_allocation healthy = true
allows_allocation suspect = true
allows_allocation _ = false

unfoldable pub allows_reads : DiskState → Bool
allows_reads failed = false
allows_reads removed = false
allows_reads _ = true

-- The table of `validate_transition` for two different states.
unfoldable pub is_legal_move : DiskState → DiskState → Bool
is_legal_move healthy healthy = false
is_legal_move healthy removed = false
is_legal_move healthy _ = true
is_legal_move suspect suspect = false
is_legal_move suspect removed = false
is_legal_move suspect _ = true
is_legal_move degraded draining = true
is_legal_move degraded failed = true
is_legal_move degraded removed = true
is_legal_move degraded _ = false
is_legal_move draining failed = true
is_legal_move draining removed = true
is_legal_move draining _ = false
is_legal_move failed removed = true
is_legal_move failed _ = false
is_legal_move removed _ = false

unfoldable pub same : DiskState → DiskState → Bool
same healthy healthy = true
same suspect suspect = true
same degraded degraded = true
same draining draining = true
same failed failed = true
same removed removed = true
same _ _ = false

-- `true` stands for `Ok(())`.
unfoldable pub validate_transition : DiskState → DiskState → Bool
unfolding same is_legal_move
validate_transition from to = elim (same from to) [ true ↦ true | false ↦ is_legal_move from to ]

-- Legal transitions, one after the other.
pub data Moves (from : DiskState) : DiskState → Type 0 where
  stay : Moves from from
  move : {s to : DiskState} → Moves from s → validate_transition s to ≡ true → Moves from to

abbrev permits : Bool → ℕ
permits false = 0
permits true = 1

-- How many of the two permissions a state gives.
abbrev pub permissions : DiskState → ℕ
permissions s = permits (allows_allocation s) + permits (allows_reads s)

validate_transition-permissions :
    (s to : DiskState) → validate_transition s to ≡ true → permissions to ≤ permissions s
unfolding validate_transition same is_legal_move allows_allocation allows_reads
validate_transition-permissions healthy to h = ground arith
validate_transition-permissions suspect to h = ground arith
validate_transition-permissions degraded to h = ground arith
validate_transition-permissions draining to h = ground arith
validate_transition-permissions failed to h = ground arith
validate_transition-permissions removed to h = ground arith

-- No sequence of legal transitions gives a disk back a permission that it has lost.
pub Moves-permissions : (from to : DiskState) → Moves from to → permissions to ≤ permissions from
Moves-permissions from to stay = omega arith
Moves-permissions from to (move {s = s} path legal) =
    omega (arith, Moves-permissions from s path, validate_transition-permissions s to legal)
