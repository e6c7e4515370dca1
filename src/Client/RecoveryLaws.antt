-- ===== src/Client/RecoveryLaws.antt =====
-- What recovery after a crash promises (crates/blockyard-ublk/src/crash_recovery.rs), with the
-- lemmas on caching a committed mapping.
use blockyard.Common.{
  ℕ-eq, String-eq, ℕ, ◌≡◌, ◌∙◌, ◌≤◌, ◌+◌, ◌↔◌, ◌⊎◌, inl, inr, refl, suc, max, String, List, [], ◌∷◌,
  length, Option, none, some, Option-cases, if◌then◌else◌, ◌==◌, ◌&&◌, is_some, Bool-cases, arith,
}
use text.Mathlib.TextEquality.{eq_iff}
use blockyard.Common.Maps.{get, insert, get-insert}
use blockyard.Client.Results.{Result, ok, err}
use blockyard.Client.Watermark.{advance_to}
use blockyard.Client.Cache.{
  MetadataCache, CachedExtentMapping, set_epoch, set_extent_mapping, update_volume,
  get_extent_mapping, mapping_of, get_volume,
}
use blockyard.Client.Recovery.{
  CommittedMapping, fresh, check, check_against, Shared, advance, cached, RecoveryResult, Lookup,
  cache_committed, recover_found, recover_each, recovered, recover,
}

-- An operation of the list that was committed with a mapping of a block.
abbrev pub CommittedAt : Lookup → List ℕ → ℕ → CachedExtentMapping → Type 0
CommittedAt lookup_operation [] block v = ⊥
CommittedAt lookup_operation (op ∷ ops) block v =
    ((m : CommittedMapping) × (lookup_operation op ≡ ok (some m))
      × (m.block_range.start ≡ block)
      × (cached m ≡ v))
    ⊎ CommittedAt lookup_operation ops block v

module _ (to_string : ℕ → String) where
  pub get-set_extent_mapping :
      (volume_id other k b : ℕ) (v : CachedExtentMapping) (c : MetadataCache)
      → get_extent_mapping to_string other k (set_extent_mapping to_string volume_id b v c) ≡ (
          if (to_string volume_id == to_string other)
            && (b == k)
            && is_some (get_volume to_string volume_id c)
          then some v
          else get_extent_mapping to_string other k c)
  unfolding get_extent_mapping set_extent_mapping update_volume mapping_of get_volume
  get-set_extent_mapping volume_id other k b v c =
      elim (Option-cases (get (to_string volume_id) c.volumes)) [
        | inl e ↦ rw e (ground arith)
        | inr (vol, e) ↦ rw e (
            ground (
              arith,
              e,
              eq_iff (to_string volume_id) (to_string other),
              get-insert (to_string volume_id) (to_string other)
                  (record vol { extent_mappings = insert b v vol.extent_mappings }) c.volumes,
              get-insert b k v vol.extent_mappings,
            ))
      ]

  pub cache_committed-same :
      (volume_id : ℕ) (m : CommittedMapping) (s : Shared)
      → ((cache_committed to_string volume_id m s).watermark ≡ s.watermark)
        × ((cache_committed to_string volume_id m s).cache.epoch ≡ s.cache.epoch)
  unfolding cache_committed set_extent_mapping update_volume
  cache_committed-same volume_id m s =
      elim (Option-cases (get (to_string volume_id) s.cache.volumes)) [
        | inl e ↦ rw e (refl, refl)
        | inr (vol, e) ↦ rw e (refl, refl)
      ]

  recovered-cache :
      (epoch : ℕ) (x : Shared × Result (ℕ × ℕ)) → (recovered epoch x).0.cache ≡ x.0.cache
  unfolding recovered advance
  recovered-cache epoch (s, err e) = refl
  recovered-cache epoch (s, ok (f, g)) = refl

  module _ (lookup_operation : Lookup) (volume_id : ℕ) where
    abbrev Counts : ℕ → List ℕ → ℕ → ℕ → Shared → Shared → Type 0
    Counts total ops found missing s s' =
        (total ≡ found + missing + length ops)
        × (s'.watermark ≡ s.watermark)
        × (s'.cache.epoch ≡ s.cache.epoch)

    recover_found-count :
        (answer : Result (Option CommittedMapping)) (op : ℕ) (ops : List ℕ)
        (found missing found' missing' : ℕ) (s s' : Shared)
        → ((f g : ℕ) (t : Shared)
            → recover_each to_string lookup_operation volume_id ops f g t
              ≡ (s', ok (found', missing'))
            → Counts (found' + missing') ops f g t s')
        → recover_found to_string
            (recover_each to_string lookup_operation volume_id ops)
            volume_id
            answer
            found
            missing
            s
          ≡ (s', ok (found', missing'))
        → Counts (found' + missing') (op ∷ ops) found missing s s'
    unfolding recover_found
    recover_found-count (err e) op ops found missing found' missing' s s' next h = cc
    recover_found-count (ok none) op ops found missing found' missing' s s' next h =
        let (count, w, e) = next found (suc missing) s h in (omega arith, w, e)
    recover_found-count (ok (some m)) op ops found missing found' missing' s s' next h =
        let (count, w, e) = next (suc found) missing _ h in
        let (w', e') = cache_committed-same volume_id m s in (omega arith, cc, cc)

    recover_each-count :
        (ops : List ℕ) (found missing found' missing' : ℕ) (s s' : Shared)
        → recover_each to_string lookup_operation volume_id ops found missing s
          ≡ (s', ok (found', missing'))
        → Counts (found' + missing') ops found missing s s'
    unfolding recover_each
    recover_each-count [] found missing found' missing' s s' h = ground arith
    recover_each-count (op ∷ ops) found missing found' missing' s s' h =
        recover_found-count (lookup_operation op) op ops found missing found' missing' s s'
          (λ f g t. recover_each-count ops f g found' missing' t s') h

    -- A cached mapping that is as before or that an operation of the list was committed with.
    abbrev pub Only : List ℕ → ℕ → ℕ → MetadataCache → MetadataCache → Type 0
    Only ops other k c c' =
        (get_extent_mapping to_string other k c' ≡ get_extent_mapping to_string other k c)
        ⊎ ((to_string other ≡ to_string volume_id)
            × ((v : CachedExtentMapping) × (get_extent_mapping to_string other k c' ≡ some v)
                × CommittedAt lookup_operation ops k v))

    cached-Only :
        (op : ℕ) (ops : List ℕ) (other k : ℕ) (m : CommittedMapping) (s : Shared)
        (c' : MetadataCache)
        → lookup_operation op ≡ ok (some m)
        → Only ops other k (cache_committed to_string volume_id m s).cache c'
        → Only (op ∷ ops) other k s.cache c'
    unfolding cache_committed
    cached-Only op ops other k m s c' asked (inl same) =
        let set = get-set_extent_mapping volume_id other k m.block_range.start (cached m) s.cache in
        elim (Bool-cases (
          (to_string volume_id == to_string other)
          && (m.block_range.start == k)
          && is_some (get_volume to_string volume_id s.cache))) [
            | inl e ↦ inr (
              ground (arith, eq_iff (to_string volume_id) (to_string other)),
              (cached m, ground arith, inl (m, asked, ground arith, refl)),
            )
            | inr e ↦ inl (same ∙ (set ∙ (rw e refl)))
          ]
    cached-Only op ops other k m s s' e (inr (volume, (v, at, by))) = inr (volume, (v, at, inr by))

    skipped-Only :
        (op : ℕ) (ops : List ℕ) (other k : ℕ) (c c' : MetadataCache)
        → Only ops other k c c'
        → Only (op ∷ ops) other k c c'
    skipped-Only op ops other k c c' (inl same) = inl same
    skipped-Only op ops other k c c' (inr (volume, (v, at, by))) = inr (volume, (v, at, inr by))

    recover_found-Only :
        (answer : Result (Option CommittedMapping)) (op : ℕ) (ops : List ℕ)
        (other k found missing : ℕ) (s : Shared)
        → lookup_operation op ≡ answer
        → ((f g : ℕ) (t : Shared)
            → Only ops other k t.cache
                (recover_each to_string lookup_operation volume_id ops f g t).0.cache)
        → Only
            (op ∷ ops)
            other
            k
            s.cache
            (recover_found to_string
              (recover_each to_string lookup_operation volume_id ops)
              volume_id
              answer
              found
              missing
              s).0.cache
    unfolding recover_found
    recover_found-Only (err e) op ops other k found missing s at next = inl refl
    recover_found-Only (ok none) op ops other k found missing s at next =
        skipped-Only op ops other k s.cache _ (next found (suc missing) s)
    recover_found-Only (ok (some m)) op ops other k found missing s at next =
        cached-Only op ops other k m s _ at
          (next (suc found) missing (cache_committed to_string volume_id m s))

    recover_each-Only :
        (ops : List ℕ) (other k found missing : ℕ) (s : Shared)
        → Only ops other k s.cache
            (recover_each to_string lookup_operation volume_id ops found missing s).0.cache
    unfolding recover_each
    recover_each-Only [] other k found missing s = inl refl
    recover_each-Only (op ∷ ops) other k found missing s =
        recover_found-Only (lookup_operation op) op ops other k found missing s refl
          (λ f g t. recover_each-Only ops other k f g t)

    -- Recovery adds no mapping that is not committed: whatever it returns, what the cache then has at
    -- a block is what it had before, or, in the volume that is recovered, the mapping of an operation
    -- of the list that the metadata service has reported as committed at that block.
    pub recover-Only :
        (answer : Result ℕ) (ops : List ℕ) (other k : ℕ) (s : Shared)
        → Only ops other k s.cache
            (recover to_string answer lookup_operation volume_id ops s).0.cache
    unfolding recover set_epoch get_extent_mapping
    recover-Only (err e) ops other k s = inl refl
    recover-Only (ok epoch) ops other k s =
        let t : Shared = record s { cache = set_epoch epoch s.cache } in
        rw (recovered-cache epoch (recover_each to_string lookup_operation volume_id ops 0 0 t))
          (recover_each-Only ops other k 0 0 t)

    recovered-ok :
        (epoch : ℕ) (s' : Shared) (r : RecoveryResult) (x : Shared × Result (ℕ × ℕ))
        → recovered epoch x ≡ (s', ok r)
        → (x ≡ (x.0, ok (r.committed_operations, r.uncommitted_operations)))
          × (r.recovered_epoch ≡ epoch)
          × (s' ≡ advance epoch x.0)
    unfolding recovered
    recovered-ok epoch s' r (t, err e) h = cc
    recovered-ok epoch s' r (t, ok (f, g)) h = ground arith

    -- A recovery that succeeds has counted each operation of the list once, has set the cached epoch
    -- to the epoch of the metadata service, and has raised the watermark to that epoch if it was
    -- lower; the cache is then fresh exactly if the watermark was not above that epoch before.
    pub recover-ok :
        (epoch : ℕ) (ops : List ℕ) (s s' : Shared) (r : RecoveryResult)
        → recover to_string (ok epoch) lookup_operation volume_id ops s ≡ (s', ok r)
        → (r.committed_operations + r.uncommitted_operations ≡ length ops)
          × (r.recovered_epoch ≡ epoch)
          × (s'.cache.epoch ≡ epoch)
          × (s'.watermark ≡ max epoch s.watermark)
          × ((check s'.cache s'.watermark ≡ fresh) ↔ (s.watermark ≤ epoch))
    unfolding recover advance advance_to check_against set_epoch
    recover-ok epoch ops s s' r h =
        let t : Shared = record s { cache = set_epoch epoch s.cache } in
        let x = recover_each to_string lookup_operation volume_id ops 0 0 t in
        let (counted, at, next) = recovered-ok epoch s' r x h in
        let (count, w, e) =
          recover_each-count ops 0 0 r.committed_operations r.uncommitted_operations t x.0
            counted in
        (omega arith, at, ground arith, ground arith, ground arith)
