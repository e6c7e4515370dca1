-- ===== src/Storage/Crashes.antt =====
-- What a crash leaves of a write (crates/blockyard-storage/src/extent.rs).
use blockyard.Common.{ℕ, ◌≡◌, ◌≢◌, ◌⊎◌, inl, inr, refl, none, some, List, ◌∷◌, ◌++◌, arith}
use blockyard.Storage.Extents.{
  ExtentMeta, meta, unreadable, Slot, FileStep, write_staged, write_meta, renamed, file_step,
  file_steps, stage_steps, commit_steps, entry_of, ok, err, extent_not_found, checksum_mismatch,
  stage_extent, read_checked, read_found, read_extent, commit_found, commit_extent,
}

-- What the files may be after a crash in the course of some calls: a write may be torn.
pub data Crash : Slot → List FileStep → Slot → Type 0 where
  at_once : {s : Slot} {xs : List FileStep} → Crash s xs s
  torn_staged :
      {s : Slot} {data' : List ℕ} {xs : List FileStep} (part : List ℕ)
      → Crash s (write_staged data' ∷ xs) (record s { staged = some part })
  torn_meta :
      {s : Slot} {m : ExtentMeta} {xs : List FileStep}
      → Crash s (write_meta m ∷ xs) (record s { metadata = some unreadable })
  later :
      {s : Slot} {x : FileStep} {xs : List FileStep} {t : Slot}
      → Crash (file_step x s) xs t
      → Crash s (x ∷ xs) t

abbrev pub write_steps : List ℕ → ExtentMeta → List FileStep
write_steps data' m = stage_steps data' ++ commit_steps m

-- No committed file, or the whole of the data and the metadata.
abbrev Whole : List ℕ → ExtentMeta → Slot → Type 0
Whole data' m t = (t.committed ≡ none) ⊎ ((t.committed ≡ some data') × (t.metadata ≡ some (meta m)))

Crash-Whole :
    (data' : List ℕ) (m : ExtentMeta) (s t : Slot)
    → s.committed ≡ none
    → Crash s (write_steps data' m) t
    → Whole data' m t
unfolding file_step renamed
Crash-Whole data' m s t h at_once = inl h
Crash-Whole data' m s t h (later at_once) = inl h
Crash-Whole data' m s t h (later (torn_staged part)) = inl h
Crash-Whole data' m s t h (later (later at_once)) = inl h
Crash-Whole data' m s t h (later (later (later at_once))) = inl h
Crash-Whole data' m s t h (later (later (later torn_meta))) = inl h
Crash-Whole data' m s t h (later (later (later (later at_once)))) = inl h
Crash-Whole data' m s t h (later (later (later (later (later at_once))))) = inr (refl, refl)

module _ (compute_checksum : List ℕ → ℕ) where
  -- The first write of an extent version, interrupted by a crash at any point, leaves nothing that
  -- can be read, or the whole of its data with its checksum; and a restart then finds no committed
  -- file, or one with the metadata of that data.
  pub Crash-first_write :
      (data' : List ℕ) (m : ExtentMeta) (s t : Slot)
      → s.committed ≡ none
      → m.checksum ≡ compute_checksum data'
      → Crash s (write_steps data' m) t
      → (read_extent compute_checksum t ≡ err extent_not_found)
        ⊎ ((read_extent compute_checksum t ≡ ok (data', compute_checksum data'))
            × (t.metadata ≡ some (meta m)))
  unfolding read_extent read_found read_checked
  Crash-first_write data' m s t h sum crash = elim (Crash-Whole data' m s t h crash) [
    | inl e ↦ inl (rw e refl)
    | inr (e, k) ↦ inr (rw (e, k) (ground arith), k)
  ]

  -- When a committed extent version is written again with data of another checksum, there is a
  -- crash after which it can no longer be read: the data is the old and the metadata the new. The
  -- discarding of staged files at the next start does not change that.
  pub Crash-overwrite_lost :
      (data' old : List ℕ) (m : ExtentMeta) (s : Slot)
      → s.committed ≡ some old
      → m.checksum ≡ compute_checksum data'
      → compute_checksum data' ≢ compute_checksum old
      → (t : Slot) × Crash s (write_steps data' m) t
        × (read_extent compute_checksum t ≡ err checksum_mismatch)
        × (read_extent compute_checksum (record t { staged = none }) ≡ err checksum_mismatch)
  unfolding read_extent read_found read_checked file_step
  Crash-overwrite_lost data' old m s h sum apart = (
    record s { staged = some data'; metadata = some (meta m) },
    later (later (later (later at_once))),
    rw (h) (ground arith),
    rw (h) (ground arith),
  )

  -- What is staged and then committed is read back with its checksum, whether or not the extent
  -- version was committed before, and its staged file is gone.
  pub commit_extent-read_extent :
      (data' : List ℕ) (m : ExtentMeta) (s : Slot)
      → m.checksum ≡ compute_checksum data'
      → let (t, result) = commit_extent m (stage_extent compute_checksum data' s).0 in
        (result ≡ ok (entry_of m))
        × (read_extent compute_checksum t ≡ ok (data', compute_checksum data'))
        × (t.staged ≡ none)
  unfolding read_extent read_found read_checked commit_extent commit_found stage_extent file_steps
      file_step renamed
  commit_extent-read_extent data' m s sum = (refl, ground arith, refl)
