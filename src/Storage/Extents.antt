-- ===== src/Storage/Extents.antt =====
-- crates/blockyard-storage/src/extent.rs: the extent files of one disk. A file system is what the
-- files of the two directories hold: the staged file, the committed file and the metadata of each
-- extent version, whose names are distinct. The checksum is the parameter `compute_checksum`; the
-- metadata stands for its JSON text, which has an alternative for a text that does not parse.
use blockyard.Common.{
  ℕ-eq, ℕ, suc, ◌+◌, Option, none, some, is_some, List, [], ◌∷◌, if◌then◌else◌, nat_eq,
}
use blockyard.Common.Maps.{Map, insert}

pub data StorageClass : Type 0 where
  default high_performance archive : StorageClass

pub record ExtentMeta : Type 0 where
  pub extent_id : ℕ
  pub disk_id : ℕ
  pub version : ℕ
  pub checksum : ℕ
  pub size : ℕ
  pub storage_class : StorageClass
  pub committed_at : ℕ

-- The content of a metadata file.
pub data MetaFile : Type 0 where
  meta : ExtentMeta → MetaFile
  unreadable : MetaFile

pub record LocalExtentEntry : Type 0 where
  pub extent_id : ℕ
  pub disk_id : ℕ
  pub version : ℕ
  pub checksum : ℕ
  pub size : ℕ
  pub storage_class : StorageClass

-- The files of one extent version.
pub record Slot : Type 0 where
  pub staged : Option (List ℕ)
  pub committed : Option (List ℕ)
  pub metadata : Option MetaFile

abbrev pub empty_slot : Slot
empty_slot = record { staged = none; committed = none; metadata = none }

pub data StorageError : Type 0 where
  staging_error extent_not_found checksum_mismatch : StorageError

pub data StorageResult (A : Type 0) : Type 0 where
  ok : A → StorageResult A
  err : StorageError → StorageResult A

-- One call that the source makes of the file system for an extent version. `File::create` leaves an
-- empty file, and `write_all` the whole content.
pub data FileStep : Type 0 where
  create_staged create_meta : FileStep
  write_staged : List ℕ → FileStep
  write_meta : ExtentMeta → FileStep
  rename : FileStep

unfoldable pub renamed : Option (List ℕ) → Slot → Slot
renamed none s = s
renamed (some data') s = record s { staged = none; committed = some data' }

unfoldable pub file_step : FileStep → Slot → Slot
unfolding renamed
file_step create_staged s = record s { staged = some [] }
file_step (write_staged data') s = record s { staged = some data' }
file_step create_meta s = record s { metadata = some unreadable }
file_step (write_meta m) s = record s { metadata = some (meta m) }
file_step rename s = renamed s.staged s

unfoldable pub file_steps : List FileStep → Slot → Slot
unfolding file_step
file_steps [] s = s
file_steps (x ∷ xs) s = file_steps xs (file_step x s)

-- The calls of `stage_extent`.
abbrev pub stage_steps : List ℕ → List FileStep
stage_steps data' = create_staged ∷ write_staged data' ∷ []

-- The calls of `commit_extent`, once the staged file is found.
abbrev pub commit_steps : ExtentMeta → List FileStep
commit_steps m = create_meta ∷ write_meta m ∷ rename ∷ []

abbrev pub entry_of : ExtentMeta → LocalExtentEntry
entry_of m = record {
  extent_id = m.extent_id;
  disk_id = m.disk_id;
  version = m.version;
  checksum = m.checksum;
  size = m.size;
  storage_class = m.storage_class;
}

module _ (compute_checksum : List ℕ → ℕ) where
  -- `stage_extent` with the checksum that it returns.
  unfoldable pub stage_extent : List ℕ → Slot → Slot × StorageResult ℕ
  unfolding file_steps
  stage_extent data' s = (file_steps (stage_steps data') s, ok (compute_checksum data'))

  unfoldable pub read_checked : Option MetaFile → List ℕ → StorageResult (List ℕ × ℕ)
  read_checked (some (meta m)) data' =
      if nat_eq m.checksum (compute_checksum data')
      then ok (data', compute_checksum data')
      else err checksum_mismatch
  read_checked (some unreadable) data' = ok (data', compute_checksum data')
  read_checked none data' = ok (data', compute_checksum data')

  unfoldable pub read_found : Option (List ℕ) → Option MetaFile → StorageResult (List ℕ × ℕ)
  unfolding read_checked
  read_found none m = err extent_not_found
  read_found (some data') m = read_checked m data'

  unfoldable pub read_extent : Slot → StorageResult (List ℕ × ℕ)
  unfolding read_found
  read_extent s = read_found s.committed s.metadata

unfoldable pub commit_found :
    Option (List ℕ) → ExtentMeta → Slot → Slot × StorageResult LocalExtentEntry
unfolding file_steps
commit_found none m s = (s, err staging_error)
commit_found (some data') m s = (file_steps (commit_steps m) s, ok (entry_of m))

-- `commit_extent` with the metadata that it makes of its arguments and the time.
unfoldable pub commit_extent : ExtentMeta → Slot → Slot × StorageResult LocalExtentEntry
unfolding commit_found
commit_extent m s = commit_found s.staged m s

-- `ExtentIndex`: its operations are those of the map.
abbrev pub ExtentIndex : Type 0
ExtentIndex = Map ℕ LocalExtentEntry

unfoldable pub insert_entry : LocalExtentEntry → ExtentIndex → ExtentIndex
insert_entry e index = insert e.extent_id e index

pub record RecoveryReport : Type 0 where
  pub committed_recovered : ℕ
  pub staged_discarded : ℕ
  pub errors : ℕ

unfoldable pub recover_extent_from_file : Option MetaFile → StorageResult LocalExtentEntry
recover_extent_from_file none = err extent_not_found
recover_extent_from_file (some unreadable) = err extent_not_found
recover_extent_from_file (some (meta m)) = ok (entry_of m)

unfoldable pub scanned :
    StorageResult LocalExtentEntry → ExtentIndex × RecoveryReport → ExtentIndex × RecoveryReport
unfolding insert_entry
scanned (ok e) (index, r) =
    (insert_entry e index, record r { committed_recovered = suc r.committed_recovered })
scanned (err e) (index, r) = (index, record r { errors = suc r.errors })

unfoldable pub scan_file :
    Option (List ℕ) → Option MetaFile → ExtentIndex × RecoveryReport → ExtentIndex × RecoveryReport
unfolding scanned recover_extent_from_file
scan_file none m x = x
scan_file (some data') m x = scanned (recover_extent_from_file m) x

-- `scan_committed_dir` over the extent versions of the disk.
unfoldable pub scan_committed_dir :
    List Slot → ExtentIndex × RecoveryReport → ExtentIndex × RecoveryReport
unfolding scan_file
scan_committed_dir [] x = x
scan_committed_dir (s ∷ ss) x = scan_committed_dir ss (scan_file s.committed s.metadata x)

unfoldable pub count_staged : List Slot → ℕ
count_staged [] = 0
count_staged (s ∷ ss) = (if is_some s.staged then 1 else 0) + count_staged ss

-- The staged file of each extent version is discarded.
unfoldable pub discard_staged : List Slot → List Slot
discard_staged [] = []
discard_staged (s ∷ ss) = record s { staged = none } ∷ discard_staged ss

abbrev pub fresh_report : RecoveryReport
fresh_report = record { committed_recovered = 0; staged_discarded = 0; errors = 0 }

-- `recover`: the disk's files after it, the index and the report.
unfoldable pub recover : List Slot → ExtentIndex → List Slot × (ExtentIndex × RecoveryReport)
unfolding scan_committed_dir count_staged discard_staged
recover slots index =
    let (index', r) = scan_committed_dir slots (index, fresh_report) in
    (discard_staged slots, (index', record r { staged_discarded = count_staged slots }))
