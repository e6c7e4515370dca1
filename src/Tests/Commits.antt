-- ===== src/Tests/Commits.antt =====
-- The theorems about commits at the demo state.
use blockyard.Common.{
  ℕ-eq, String-eq, ◌≡◌, ◌↔◌, refl, some, [], ◌∷◌, ◌++◌, true, ◌==◌, if◌then◌else◌,
}
use blockyard.Metadata.State.{
  MetadataState, MetadataResponse, cas_mismatch, advance_epoch, mapping_at, is_error,
}
use blockyard.Metadata.Commit.{commit, to_mapping}
use blockyard.Metadata.Index.Invariant.{IndexInv}
use blockyard.Tests.Demo.{
  strokes, first_write, second_write, demo_log, demo, program, demo-IndexInv,
}
use blockyard.Metadata.CommitLaws.Outcomes.{Accepts, is_accepted, commit-accepted_iff}
use blockyard.Metadata.CommitLaws.Effects.{commit-mapping_at}
use blockyard.Metadata.CommitLaws.Batches.{FailsAt, commit_batch-error}
use blockyard.Metadata.Index.Lookups.{replay-IndexInv}

abbrev written : MetadataState
written = record demo {
  extent_mappings =
      (strokes 1, (0, to_mapping first_write) ∷ (8, to_mapping second_write) ∷ []) ∷ [];
  operation_index = (strokes 7, (strokes 1, 0)) ∷ (strokes 9, (strokes 1, 8)) ∷ [];
  extent_version_index = (5, (strokes 1, 0)) ∷ (6, (strokes 1, 8)) ∷ [];
}

commit-accepted_iff_example :
    (is_accepted (commit strokes second_write demo) ≡ true) ↔ Accepts strokes second_write demo
commit-accepted_iff_example = commit-accepted_iff strokes second_write demo demo-IndexInv

commit-mapping_at_example :
    (MetadataResponse.epoch 0 ≡ MetadataResponse.epoch demo.epoch)
    × (written.epoch ≡ demo.epoch)
    × (written.volumes ≡ demo.volumes)
    × (mapping_at written (strokes 1) 0 ≡ (
        if strokes second_write.volume_id == strokes 1
        then (if second_write.block_range.start == 0
            then some (to_mapping second_write)
            else mapping_at demo (strokes 1) 0)
        else mapping_at demo (strokes 1) 0))
unfolding commit program is_error to_mapping
commit-mapping_at_example =
    commit-mapping_at strokes second_write demo written (MetadataResponse.epoch 0) (strokes 1) 0
      refl refl

-- The second entry expects that block 0 is still unwritten.
commit_batch-error_example :
    FailsAt strokes
      (second_write ∷ first_write ∷ [])
      demo
      written
      (MetadataResponse.error cas_mismatch)
unfolding program is_error to_mapping
commit_batch-error_example =
    commit_batch-error strokes (second_write ∷ first_write ∷ []) demo written
      (MetadataResponse.error cas_mismatch) refl refl

abbrev advanced : MetadataState
advanced = record demo { epoch = 1 }

advanced-IndexInv : IndexInv strokes advanced
unfolding program
advanced-IndexInv = replay-IndexInv strokes (demo_log ++ (advance_epoch ∷ []))
