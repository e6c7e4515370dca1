-- ===== src/Tests/Handler.antt =====
-- The theorems about the block device, on one volume with an erasure code and three nodes.
use blockyard.Common.{
  ℕ-eq, String-eq, ℕ, ◌≡◌, ◌-◌, ◌*◌, refl, true, false, none, some, List, [], ◌∷◌, keep, arith,
}
use blockyard.Common.Maps.{values}
use blockyard.Common.Slots.{set_fragment, no_fragments, available_count}
use blockyard.Protection.{erasure_coded}
use blockyard.Client.Results.{ok}
use blockyard.Client.LeaseManager.{LeaseManager, active}
use blockyard.Client.Watermark.{is_fresh}
use blockyard.Client.Cache.{CachedVolumeInfo, NodeAddress, div_ceil}
use blockyard.Client.Device.{block_range, extent_blocks, take}
use blockyard.Client.Pipeline.{TaskResult, returned, PipelineState, select_nodes, list_nodes}
use blockyard.Storage.Service.Read.{zeros, drop, resize}
use blockyard.Erasure.Shards.{data_shard, data_shards, parity_shards}
use blockyard.Erasure.Stripe.{aligned_start, encode_data, collect_shards}
use blockyard.Handler.Io.{IoRequest, read, write, VolumeConfig, done, Outside, handle_read}
use blockyard.Handler.Writes.{Ended, handle_write-Settled}
use blockyard.Handler.Reads.{handle_read-written}
use blockyard.Tests.Demo.{strokes}
use blockyard.Tests.Erasure.{sums, sums-Sound, five}

abbrev config : VolumeConfig
config = record {
  volume_id = 1;
  size_bytes = 64;
  block_size = 2;
  protection = erasure_coded 2 1;
  extent_size = 8;
}

abbrev volume : CachedVolumeInfo
volume = record {
  volume_id = 1;
  size_bytes = 64;
  block_size = 2;
  protection = erasure_coded 2 1;
  extent_mappings = [];
}

abbrev node_at : ℕ → NodeAddress
node_at node = record { node_id = node; addr = strokes node }

abbrev client : PipelineState
client = record {
  shared = record {
    cache = record {
      epoch = 6;
      cluster_map = (strokes 4, node_at 4) ∷ (strokes 5, node_at 5) ∷ (strokes 7, node_at 7) ∷ [];
      volumes = (strokes 1, volume) ∷ [];
    };
    watermark = 3;
  };
  handler = record { paused = false; refresh_count = 0 };
}

abbrev stored : List (ℕ × List ℕ) → List TaskResult
stored [] = []
stored ((n, fragment) ∷ sent) =
    returned n (ok (record { node_id = n; success = true; error = none })) ∷ stored sent

-- The first fragment of the extent at block 0 cannot be read.
abbrev outside : Outside
outside = record {
  to_string = strokes;
  score = λ extent_num n. n;
  extent_id_for = λ volume_id extent_num. extent_num;
  code = sums;
  refresh_metadata = λ c. (c, ok c.epoch);
  joined = λ i attempt nodes. [];
  lookup_operation = λ i attempt. ok none;
  ec_joined = λ i attempt sent. stored sent;
  checksum_of = λ ack. [];
  read_extent = λ extent_num offset length_bytes n. none;
  read_fragments =
      λ extent_num nodes. (2, some (5 ∷ 7 ∷ 3 ∷ [])) ∷ (0, none) ∷ (1, some (4 ∷ 5 ∷ 0 ∷ [])) ∷ [];
}

abbrev lease : LeaseManager
lease = record {
  volume_id = 1;
  session_id = 9;
  ttl_ms = 1000;
  status = active;
  lease_version = some 2;
  expires_at_ms = some 5000;
}

-- Five blocks from block 3 on, of two extents.
abbrev sent : List ℕ
sent = 1 ∷ 2 ∷ 3 ∷ 4 ∷ 5 ∷ 6 ∷ 7 ∷ 8 ∷ 9 ∷ 10 ∷ []

abbrev write_request : IoRequest
write_request = record {
  operation = write;
  offset_bytes = 6;
  length_bytes = 10;
  data_bytes = some sent;
}

handle_write-Settled_example : Ended outside config 6 lease write_request sent client
unfolding block_range div_ceil
handle_write-Settled_example =
    handle_write-Settled outside config 6 lease write_request sent client (ground arith) refl refl
      (ground arith)

-- Blocks 1 and 2 of the extent that holds five bytes.
abbrev read_request : IoRequest
read_request = record { operation = read; offset_bytes = 2; length_bytes = 4; data_bytes = none }

handle_read-written_example :
    handle_read outside config read_request client
    ≡ (client, done (some (resize 4 (drop (((block_range 2 2 4).start - 0) * 2) five))))
unfolding block_range div_ceil aligned_start extent_blocks is_fresh encode_data data_shards
    data_shard parity_shards take drop zeros select_nodes list_nodes values collect_shards
    set_fragment no_fragments available_count keep
handle_read-written_example =
    handle_read-written outside config sums-Sound 2 1 five 0 read_request client refl refl
      (ground arith)
      (
        (1 ∷ 2 ∷ 3 ∷ []) ∷ (4 ∷ 5 ∷ 0 ∷ []) ∷ (5 ∷ 7 ∷ 3 ∷ []) ∷ [],
        refl,
        (λ h. cc),
        (refl, (tt, (refl, tt))),
        ground arith,
      )
      refl (ground arith) (ground arith) (ground arith) refl
