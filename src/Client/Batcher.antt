-- ===== src/Client/Batcher.antt =====
-- crates/blockyard-ublk/src/write_batcher.rs: commits that wait for one call of the metadata service.
-- The service is an argument, with a state of its own. A waiter, which the code reaches through a
-- channel of its own, is a number; an error keeps its kind in place of its text.
use blockyard.Common.{ℕ-eq, String-eq, ℕ, String, Option, none, some, List, [], ◌∷◌, ◌++◌, map}
use blockyard.Metadata.State.{BlockRange}
use blockyard.Client.Results.{Result, ok, err}
use blockyard.Client.Cache.{
  MetadataCache, CachedExtentMapping, set_extent_mapping, set_extent_mapping_range,
}
use blockyard.Client.Recovery.{Shared, advance}

pub record CommitRequest : Type 0 where
  pub volume_id : ℕ
  pub block_range : BlockRange
  pub extent_id : ℕ
  pub extent_version : ℕ
  pub epoch : ℕ
  pub replica_locations : List ℕ
  pub checksums : List (List ℕ)
  pub operation_id : Option ℕ
  pub previous_version : Option ℕ

pub record CacheUpdate : Type 0 where
  pub volume_id : ℕ
  pub block_start : ℕ
  pub block_range : Option BlockRange
  pub block_size : ℕ
  pub mapping : CachedExtentMapping

pub record PendingCommit : Type 0 where
  pub request : CommitRequest
  pub waiter : ℕ
  pub cache_update : CacheUpdate

-- What one waiter is told.
pub record Answer : Type 0 where
  pub waiter : ℕ
  pub result : Result ℕ

pub record WriteBatcher : Type 0 where
  pub shared : Shared
  pub pending : List PendingCommit

-- `submit_commit` up to its wait.
unfoldable pub submit_commit : PendingCommit → WriteBatcher → WriteBatcher
submit_commit commit b = record b { pending = b.pending ++ (commit ∷ []) }

unfoldable pub answer : Result ℕ → PendingCommit → Answer
answer result commit = record { waiter = commit.waiter; result = result }

module _ (to_string : ℕ → String) where
  abbrev pub update_in : Option BlockRange → CacheUpdate → MetadataCache → MetadataCache
  update_in none u c = set_extent_mapping to_string u.volume_id u.block_start u.mapping c
  update_in (some range) u c =
      set_extent_mapping_range to_string u.volume_id range u.block_size u.mapping c

  -- The loop over the commits after a batch that succeeded.
  unfoldable pub update_cache : List PendingCommit → MetadataCache → MetadataCache
  unfolding set_extent_mapping set_extent_mapping_range
  update_cache [] c = c
  update_cache (commit ∷ commits) c =
      update_cache commits (update_in commit.cache_update.block_range commit.cache_update c)

  unfoldable pub on_batch : Result ℕ → List PendingCommit → Shared → Shared
  unfolding update_cache advance
  on_batch (err e) commits s = s
  on_batch (ok epoch) commits s =
      let s' = advance epoch s in record s' { cache = update_cache commits s'.cache }

  module _ {M : Type 0} (commit_extent_mappings_batch : List CommitRequest → M → M × Result ℕ) where
    -- The commits that a flush has taken out of the queue.
    unfoldable pub flush_commits :
        List PendingCommit → WriteBatcher × M → (WriteBatcher × M) × List Answer
    unfolding on_batch answer
    flush_commits [] (b, m) = ((b, m), [])
    flush_commits (c ∷ cs) (b, m) =
        let (m', result) =
          commit_extent_mappings_batch (map (λ (p : PendingCommit). p.request) (c ∷ cs)) m in
        (
          (record b { shared = on_batch result (c ∷ cs) b.shared }, m'),
          map (answer result) (c ∷ cs),
        )

    -- `flush`, which is also what a round of the task of `spawn_flush_task` does after its waits.
    unfoldable pub flush : WriteBatcher × M → (WriteBatcher × M) × List Answer
    unfolding flush_commits
    flush (b, m) = flush_commits b.pending (record b { pending = [] }, m)
