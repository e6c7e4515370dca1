-- ===== src/Storage/Regions.antt =====
-- crates/blockyard-storage/src/region.rs: the bad regions of a disk, which are quarantined.
use blockyard.Common.{
  ℕ, ◌≡◌, ◌≤◌, ◌<◌, ◌+◌, ◌↔◌, ◌⊎◌, inl, inr, refl, All, Bool-cases, max, u64_mod, Bool, true, false,
  List, [], ◌∷◌, ltb, nat_eq, if◌then◌else◌, saturating_add, arith,
}

pub record BadRegion : Type 0 where
  pub offset : ℕ
  pub length : ℕ

unfoldable pub end : BadRegion → ℕ
end r = saturating_add r.offset r.length

-- `overlaps` of one region.
unfoldable pub region_overlaps : ℕ → ℕ → BadRegion → Bool
unfolding end
region_overlaps offset length r =
    if ltb r.offset (saturating_add offset length) then ltb offset (end r) else false

abbrev pub BadRegionMap : Type 0
BadRegionMap = List BadRegion

unfoldable push : BadRegion → BadRegionMap → BadRegionMap
push r [] = r ∷ []
push r (s ∷ rs) = s ∷ push r rs

unfoldable pub add_region : ℕ → ℕ → BadRegionMap → BadRegionMap
unfolding push
add_region offset length rs =
    if nat_eq length 0 then rs else push (record { offset = offset; length = length }) rs

-- `overlaps` of the map.
unfoldable pub overlaps : ℕ → ℕ → BadRegionMap → Bool
unfolding region_overlaps
overlaps offset length [] = false
overlaps offset length (r ∷ rs) =
    if region_overlaps offset length r then true else overlaps offset length rs

unfoldable pub clear : BadRegionMap → BadRegionMap
clear rs = []

abbrev pub Extent : Type 0
Extent = ℕ × ℕ × ℕ

unfoldable pub affected_extents : BadRegionMap → List Extent → List ℕ
unfolding overlaps
affected_extents rs [] = []
affected_extents rs ((id, offset, length) ∷ es) =
    if overlaps offset length rs then id ∷ affected_extents rs es else affected_extents rs es

-- A byte that a range holds.
abbrev pub Holds : ℕ → ℕ → ℕ → Type 0
Holds offset length byte = (offset ≤ byte) × (byte < offset + length)

-- Some region holds a byte of a range.
abbrev pub Shares : ℕ → ℕ → BadRegionMap → Type 0
Shares offset length [] = ⊥
Shares offset length (r ∷ rs) =
    ((byte : ℕ) × Holds offset length byte × Holds r.offset r.length byte) ⊎ Shares offset length rs

abbrev pub InRange : BadRegion → Type 0
InRange r = (0 < r.length) × (r.offset + r.length < u64_mod)

region_overlaps-shares :
    (offset length : ℕ) (r : BadRegion)
    → 0 < length
    → offset + length < u64_mod
    → InRange r
    → (region_overlaps offset length r ≡ true)
      ↔ ((byte : ℕ) × Holds offset length byte × Holds r.offset r.length byte)
unfolding region_overlaps end
region_overlaps-shares offset length r some_bytes fits (full, in_range) = (
  λ h. (max offset r.offset, ground arith, ground arith),
  λ (byte, (from, before), (from', before')). ground arith,
)

-- A range overlaps the bad regions just when one of them holds a byte of it, where the range and the
-- regions are not empty and end below 2^64.
pub overlaps-Shares :
    (offset length : ℕ) (rs : BadRegionMap)
    → 0 < length
    → offset + length < u64_mod
    → All InRange rs
    → (overlaps offset length rs ≡ true) ↔ Shares offset length rs
unfolding overlaps
overlaps-Shares offset length [] some_bytes fits ins = (λ h. cc, λ h. absurd h)
overlaps-Shares offset length (r ∷ rs) some_bytes fits (i, ins) =
    let (found, share) = region_overlaps-shares offset length r some_bytes fits i in
    let (later, share') = overlaps-Shares offset length rs some_bytes fits ins in
    elim (Bool-cases (region_overlaps offset length r)) [
      | inl e ↦ rw e (λ h. inl (found e), λ h. refl)
      | inr e ↦
          rw e (
            λ h. inr (later h),
            λ h. elim h [ inl one ↦ cc (share one, e) | inr more ↦ share' more ],
          )
    ]
