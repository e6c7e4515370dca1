-- ===== src/Tests/Extents.antt =====
-- The theorems about extent files at one extent of three bytes.
use blockyard.Common.{ℕ-eq, ℕ, ◌≡◌, ◌⊎◌, refl, none, some, [], ◌∷◌, List, length, arith}
use blockyard.Storage.Extents.{
  ExtentMeta, meta, unreadable, Slot, empty_slot, default, ok, err, extent_not_found,
  checksum_mismatch, read_extent, file_step,
}
use blockyard.Storage.Crashes.{
  Crash, at_once, later, write_steps, Crash-first_write, Crash-overwrite_lost,
}

-- The length stands for a checksum.
abbrev sum : List ℕ → ℕ
sum bytes = length bytes

abbrev payload : List ℕ
payload = 7 ∷ 8 ∷ 9 ∷ []

abbrev info : ExtentMeta
info = record {
  extent_id = 11;
  disk_id = 2;
  version = 1;
  checksum = 3;
  size = 3;
  storage_class = default;
  committed_at = 100;
}

abbrev staged : Slot
staged = record { staged = some payload; committed = none; metadata = none }

Crash-first_write_example :
    (read_extent sum staged ≡ err extent_not_found)
    ⊎ ((read_extent sum staged ≡ ok (payload, sum payload)) × (staged.metadata ≡ some (meta info)))
unfolding file_step
Crash-first_write_example =
    Crash-first_write sum payload info empty_slot staged refl refl (later (later at_once))

abbrev written : Slot
written = record { staged = none; committed = some (1 ∷ []); metadata = none }

Crash-overwrite_lost_example :
    (t : Slot) × Crash written (write_steps payload info) t
    × (read_extent sum t ≡ err checksum_mismatch)
    × (read_extent sum (record t { staged = none }) ≡ err checksum_mismatch)
Crash-overwrite_lost_example =
    Crash-overwrite_lost sum payload (1 ∷ []) info written refl refl (ground arith)

abbrev torn : Slot
torn = record { staged = some []; committed = some payload; metadata = some unreadable }

abbrev whole : Slot
whole = record { staged = none; committed = some payload; metadata = some (meta info) }
