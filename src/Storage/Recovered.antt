-- ===== src/Storage/Recovered.antt =====
-- What the start of a data node finds (crates/blockyard-storage/src/extent.rs).
use blockyard.Common.{
  ℕ-eq, ℕ, ◌≡◌, ◌+◌, refl, Option, none, some, is_some, List, [], ◌∷◌, nat_eq, if◌then◌else◌, arith,
}
use blockyard.Common.Maps.{get, get-insert}
use blockyard.Storage.Extents.{
  MetaFile, meta, unreadable, LocalExtentEntry, entry_of, Slot, ExtentIndex, insert_entry,
  RecoveryReport, recover_extent_from_file, scanned, scan_file, scan_committed_dir, count_staged,
  discard_staged, fresh_report, recover,
}

-- The entry of a committed file with readable metadata.
abbrev found_in : Option (List ℕ) → Option MetaFile → Option LocalExtentEntry
found_in (some data') (some (meta m)) = some (entry_of m)
found_in none o = none
found_in (some data') none = none
found_in (some data') (some unreadable) = none

-- The last of the entries for an extent, or the one that there was before.
abbrev chosen : ℕ → Option LocalExtentEntry → Option LocalExtentEntry → Option LocalExtentEntry
chosen k none before = before
chosen k (some e) before = if nat_eq e.extent_id k then some e else before

abbrev pub last_found : ℕ → List Slot → Option LocalExtentEntry → Option LocalExtentEntry
last_found k [] before = before
last_found k (s ∷ ss) before = last_found k ss (chosen k (found_in s.committed s.metadata) before)

abbrev pub committed_files : List Slot → ℕ
committed_files [] = 0
committed_files (s ∷ ss) = (if is_some s.committed then 1 else 0) + committed_files ss

get-scan_file :
    (k : ℕ) (c : Option (List ℕ)) (m : Option MetaFile) (index : ExtentIndex) (r : RecoveryReport)
    → get k (scan_file c m (index, r)).0 ≡ chosen k (found_in c m) (get k index)
unfolding scan_file scanned recover_extent_from_file insert_entry
get-scan_file k none m index r = refl
get-scan_file k (some d) none index r = refl
get-scan_file k (some d) (some unreadable) index r = refl
get-scan_file k (some d) (some (meta m)) index r = get-insert m.extent_id k (entry_of m) index

scan_file-count :
    (c : Option (List ℕ)) (m : Option MetaFile) (index : ExtentIndex) (r : RecoveryReport)
    → let r' = (scan_file c m (index, r)).1 in
      r'.committed_recovered + r'.errors
      ≡ r.committed_recovered + r.errors + (if is_some c then 1 else 0)
unfolding scan_file scanned recover_extent_from_file
scan_file-count none m index r = omega arith
scan_file-count (some d) none index r = omega arith
scan_file-count (some d) (some unreadable) index r = omega arith
scan_file-count (some d) (some (meta m)) index r = omega arith

scan-found :
    (k : ℕ) (ss : List Slot) (index : ExtentIndex) (r : RecoveryReport)
    → get k (scan_committed_dir ss (index, r)).0 ≡ last_found k ss (get k index)
unfolding scan_committed_dir
scan-found k [] index r = refl
scan-found k (s ∷ ss) index r =
    let x = scan_file s.committed s.metadata (index, r) in
    rw (← get-scan_file k s.committed s.metadata index r) (scan-found k ss x.0 x.1)

scan-count :
    (ss : List Slot) (index : ExtentIndex) (r : RecoveryReport)
    → let r' = (scan_committed_dir ss (index, r)).1 in
      r'.committed_recovered + r'.errors ≡ r.committed_recovered + r.errors + committed_files ss
unfolding scan_committed_dir
scan-count [] index r = omega arith
scan-count (s ∷ ss) index r =
    let x = scan_file s.committed s.metadata (index, r) in
    omega (arith, scan_file-count s.committed s.metadata index r, scan-count ss x.0 x.1)

count_staged-discard_staged : (ss : List Slot) → count_staged (discard_staged ss) ≡ 0
unfolding count_staged discard_staged
count_staged-discard_staged [] = refl
count_staged-discard_staged (s ∷ ss) = omega (arith, count_staged-discard_staged ss)

-- A recovery indexes an extent by the last of its committed files whose metadata can be read, and
-- leaves the entries that have none as they were; it counts every committed file once, as recovered
-- or as an error, and leaves no staged file.
pub recover-found :
    (k : ℕ) (slots : List Slot) (index : ExtentIndex)
    → let (slots', (index', r)) = recover slots index in
      (get k index' ≡ last_found k slots (get k index))
      × (r.committed_recovered + r.errors ≡ committed_files slots)
      × (count_staged slots' ≡ 0)
unfolding recover
recover-found k slots index = (
  scan-found k slots index fresh_report,
  omega (arith, scan-count slots index fresh_report),
  count_staged-discard_staged slots,
)
