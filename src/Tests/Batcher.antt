-- ===== src/Tests/Batcher.antt =====
-- The theorem about the write batcher, with a service that refuses its second batch.
use blockyard.Common.{
  ℕ-eq, String-eq, ℕ, suc, zero, ◌≡◌, ◌≤◌, refl, none, some, List, [], ◌∷◌, ◌++◌, map, All,
}
use blockyard.Client.Results.{Result, ok, err, unreachable}
use blockyard.Client.Cache.{MetadataCache}
use blockyard.Client.Cache
use blockyard.Client.Batcher.{
  CommitRequest, PendingCommit, WriteBatcher, flush, flush_commits, answer, submit_commit, on_batch,
}
use blockyard.Client.Answers.{
  BatchEvent, submit, wake, run, told, waiter_of, submitted, Seen, run-settles,
}
use blockyard.Tests.Demo.{strokes}

abbrev second_refused : List CommitRequest → ℕ → ℕ × Result ℕ
second_refused requests zero = (1, ok 7)
second_refused requests (suc n) = (suc (suc n), err (unreachable 0))

abbrev entry : ℕ → PendingCommit
entry waiter = record {
  request = record {
    volume_id = 1;
    block_range = record { start = 0; stop = 4 };
    extent_id = 11;
    extent_version = 1;
    epoch = 7;
    replica_locations = 1 ∷ 2 ∷ [];
    checksums = [];
    operation_id = none;
    previous_version = none;
  };
  waiter = waiter;
  cache_update = record {
    volume_id = 1;
    block_start = 0;
    block_range = some (record { start = 0; stop = 4 });
    block_size = 2;
    mapping = record {
      extent_id = 11;
      extent_version = 1;
      replica_locations = 1 ∷ 2 ∷ [];
      checksums = [];
      size_bytes = 8;
      extent_offset = 0;
    };
  };
}

abbrev empty : WriteBatcher
empty = record { shared = record { cache = Cache.new; watermark = 3 }; pending = [] }

abbrev events : List BatchEvent
events =
    submit (entry 21) ∷ submit (entry 22) ∷ wake ∷ submit (entry 23) ∷ wake ∷ submit (entry 24) ∷ []

run-settles_example :
    (map told (run strokes second_refused events (empty, 0)).1
        ++ map waiter_of (run strokes second_refused events (empty, 0)).0.0.pending
      ≡ [] ++ submitted events)
    × All
        (Seen (run strokes second_refused events (empty, 0)).0.0.shared.watermark)
        (run strokes second_refused events (empty, 0)).1
    × (3 ≤ (run strokes second_refused events (empty, 0)).0.0.shared.watermark)
run-settles_example = run-settles strokes second_refused events empty 0

-- Two waiters are told that their commits stand, one that its commit does not, and one waits.
run_answers : map told (run strokes second_refused events (empty, 0)).1 ≡ 21 ∷ 22 ∷ 23 ∷ []
unfolding flush flush_commits answer submit_commit on_batch
run_answers = refl
