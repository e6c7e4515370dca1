-- ===== src/Metadata/Index/Tags.antt =====
-- An index from tags to locations, over a store that gives each location at most one tag. The
-- operation index and the extent version index are of this kind.
use blockyard.Common.{
  ℕ-eq, String-eq, ℕ, String, ◌≡◌, ◌≢◌, Option, none, some, arith, Key, ◌==◌, if◌then◌else◌,
  Bool-cases, inl, inr, List, [], ◌∷◌,
}
use text.Mathlib.TextEquality.{eq_iff}
use blockyard.Common.Maps.{Map, get, insert, remove, get-insert, get-remove}
use blockyard.Metadata.State.{Location}

abbrev pub Avoids : {I : Type 0} → I → List (Option I) → Type 0
Avoids i [] = Unit {0}
Avoids i (t ∷ ts) = (t ≢ some i) × Avoids i ts

module _ {I : Type 0} ⦃e : Key I⦄ where
  -- An entry points to a location that carries its tag.
  abbrev pub IsSound : Map I Location → (String → ℕ → Option I) → Type 0
  IsSound idx tag = (i : I) (v : String) (b : ℕ) → get i idx ≡ some (v, b) → tag v b ≡ some i

  abbrev pub forget_tag : Option I → Map I Location → Map I Location
  forget_tag none idx = idx
  forget_tag (some i) idx = remove i idx

  abbrev pub note_tag : Option I → Location → Map I Location → Map I Location
  note_tag none loc idx = idx
  note_tag (some i) loc idx = insert i loc idx

  -- The store after the tag at one location has become `t`.
  abbrev pub retag : String → ℕ → Option I → (String → ℕ → Option I) → String → ℕ → Option I
  retag vk start t tag v b = if vk == v then (if start == b then t else tag v b) else tag v b

  pub IsSound-cong :
      (idx : Map I Location) (tag tag' : String → ℕ → Option I)
      → IsSound idx tag
      → ((v : String) (b : ℕ) → tag' v b ≡ tag v b)
      → IsSound idx tag'
  IsSound-cong idx tag tag' sound same i v b h = rw (same v b) (sound i v b h)

  -- What is left after the removal of one tag has another tag.
  forget-entry :
      (old : Option I) (idx : Map I Location) (i : I) (loc : Location)
      → get i (forget_tag old idx) ≡ some loc
      → (get i idx ≡ some loc) × (old ≢ some i)
  forget-entry none idx i loc h = (h, cc)
  forget-entry (some j) idx i loc h = ground (arith, get-remove j i idx, e.agree_iff j i)

  module _ (idx : Map I Location) (tag : String → ℕ → Option I) (sound : IsSound idx tag) where
    pub retag-IsSound :
        (vk : String) (start : ℕ) (t : Option I)
        → IsSound (note_tag t (vk, start) (forget_tag (tag vk start) idx)) (retag vk start t tag)
    retag-IsSound vk start none i v b h =
        let (old, other) = forget-entry (tag vk start) idx i (v, b) h in
        ground (arith, eq_iff vk v, sound i v b old)
    retag-IsSound vk start (some j) i v b h = ground (
      arith,
      eq_iff vk v,
      e.agree_iff j i,
      get-insert j i (vk, start) (forget_tag (tag vk start) idx),
      sound i v b,
      forget-entry (tag vk start) idx i (v, b),
    )

  abbrev pub forget_tags : List (Option I) → Map I Location → Map I Location
  forget_tags [] idx = idx
  forget_tags (t ∷ ts) idx = forget_tags ts (forget_tag t idx)

  forget_tags-entry :
      (ts : List (Option I)) (idx : Map I Location) (i : I) (loc : Location)
      → get i (forget_tags ts idx) ≡ some loc
      → (get i idx ≡ some loc) × Avoids i ts
  forget_tags-entry [] idx i loc h = (h, tt)
  forget_tags-entry (t ∷ ts) idx i loc h =
      let (rest, avoids) = forget_tags-entry ts (forget_tag t idx) i loc h in
      let (old, other) = forget-entry t idx i loc rest in (old, (other, avoids))

  abbrev pub drop_volume : String → (String → ℕ → Option I) → String → ℕ → Option I
  drop_volume vk tag v b = if vk == v then none else tag v b

  -- The tags of a whole volume go, if the list has them all.
  pub drop-IsSound :
      (idx : Map I Location) (tag : String → ℕ → Option I) (vk : String) (ts : List (Option I))
      → IsSound idx tag
      → ((b : ℕ) (i : I) → tag vk b ≡ some i → ¬ Avoids i ts)
      → IsSound (forget_tags ts idx) (drop_volume vk tag)
  drop-IsSound idx tag vk ts sound all i v b h =
      let (old, avoids) = forget_tags-entry ts idx i (v, b) h in
      let fact : tag v b ≡ some i = sound i v b old in
      elim (Bool-cases (vk == v)) [
        | inl here ↦ absurd (all b i (rw ((eq_iff vk v).0 here) fact) avoids)
        | inr there ↦ rw there fact
      ]
