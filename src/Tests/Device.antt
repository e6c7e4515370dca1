-- ===== src/Tests/Device.antt =====
-- The theorems about the block device's writes, on one volume of three replicas.
use blockyard.Common.{
  Bool, some, ◌⊎◌, ltb, if◌then◌else◌, All, ℕ-eq, String-eq, ℕ, ◌≡◌, ◌≤◌, refl, true, false, Option,
  none, [], ◌∷◌, List, keep, any,
}
use blockyard.Common.Maps.{get, values}
use blockyard.Protection.{replicated}
use blockyard.Client.Results.{Result, ok}
use blockyard.Client.Cache.{MetadataCache, CachedVolumeInfo, NodeAddress, get_volume}
use blockyard.Client.Recovery.{CommittedMapping, advance}
use blockyard.Client.Device.{WriteRequest, read_single_block_data}
use blockyard.Client.Reads.{FirstAnswer, Silent, read_single_block_data-FirstAnswer}
use blockyard.Client.Pipeline.{
  TaskResult, panicked, returned, committed, done, PipelineState, execute_with_op_id, attempts,
  execute_once, on_volume, on_nodes, on_acks, select_nodes, total_nodes, required_acks, list_nodes,
  collect,
}
use blockyard.Client.PipelineLaws.{Committed, execute_with_op_id-committed}
use blockyard.Storage.Service.Read.{ReadExtentRequest, zeros}
use blockyard.Tests.Demo.{strokes}

-- Five blocks of two bytes from block 3 on, in extents of four blocks.
abbrev bytes : List ℕ
bytes = 1 ∷ 2 ∷ 3 ∷ 4 ∷ 5 ∷ 6 ∷ 7 ∷ 8 ∷ 9 ∷ 10 ∷ []

abbrev any_read : ReadExtentRequest
any_read = record {
  operation_id = 41;
  volume_id = 1;
  extent_id = 11;
  extent_version = 1;
  epoch = 4;
  offset = 0;
  length = 0;
}

abbrev volume : CachedVolumeInfo
volume = record {
  volume_id = 1;
  size_bytes = 4096;
  block_size = 2;
  protection = replicated 3;
  extent_mappings = [];
}

abbrev node_at : ℕ → NodeAddress
node_at n = record { node_id = n; addr = strokes n }

abbrev client : PipelineState
client = record {
  shared = record {
    cache = record {
      epoch = 6;
      cluster_map = (strokes 4, node_at 4) ∷ (strokes 5, node_at 5) ∷ (strokes 7, node_at 7) ∷ [];
      volumes = (strokes 1, volume) ∷ [];
    };
    watermark = 3;
  };
  handler = record { paused = false; refresh_count = 0 };
}

-- Two nodes of three store the write.
abbrev replies : ℕ → List ℕ → List TaskResult
replies attempt nodes =
    returned 4 (ok (record { node_id = 4; success = true; error = none }))
    ∷ panicked
    ∷ returned 7 (ok (record { node_id = 7; success = true; error = none }))
    ∷ []

abbrev unknown : ℕ → Result (Option CommittedMapping)
unknown attempt = ok none

abbrev request : WriteRequest
request = record { block_range = record { start = 0; stop = 1 }; data_bytes = 7 ∷ 8 ∷ [] }

abbrev refreshed : MetadataCache → MetadataCache × Result ℕ
refreshed c = (c, ok c.epoch)

execute-done :
    (execute_with_op_id strokes refreshed (λ e n. n) replies unknown 3 1 4 request client).1
    ≡ done (committed 6)
unfolding execute_with_op_id attempts execute_once get_volume get on_volume on_nodes on_acks
    select_nodes total_nodes required_acks list_nodes values collect advance keep any
execute-done = refl

execute_with_op_id-committed_example :
    Committed strokes refreshed (λ e n. n) 1 4 request replies unknown 3 client 6
    × (6
        ≤ (execute_with_op_id strokes refreshed
            (λ e n. n)
            replies
            unknown
            3
            1
            4
            request
            client).0.shared.watermark)
execute_with_op_id-committed_example =
    execute_with_op_id-committed strokes refreshed (λ e n. n) 1 4 request replies unknown 3 client 6
      execute-done

abbrev known : ℕ → Bool
known node = ltb 4 node

abbrev answer_of : ℕ → Option (List ℕ)
answer_of node = if ltb 5 node then some (7 ∷ 8 ∷ []) else none

-- Node 4 is unknown, node 5 fails and node 7 answers.
read_single_block_data-FirstAnswer_example :
    FirstAnswer known answer_of
      (4 ∷ 5 ∷ 7 ∷ [])
      (read_single_block_data known answer_of (4 ∷ 5 ∷ 7 ∷ []) 2)
    ⊎ (All (Silent known answer_of) (4 ∷ 5 ∷ 7 ∷ [])
        × (read_single_block_data known answer_of (4 ∷ 5 ∷ 7 ∷ []) 2 ≡ zeros 2))
read_single_block_data-FirstAnswer_example =
    read_single_block_data-FirstAnswer known answer_of (4 ∷ 5 ∷ 7 ∷ []) 2
