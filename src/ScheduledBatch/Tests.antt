-- ===== src/ScheduledBatch/Tests.antt =====
-- The theorems at a run of four shards, the default number.
use aws_serverless_patterns.Prelude.{Option, none, some, if◌then◌else◌, nat_eq, map, ◌≡◌, ℕ, ◌+◌}
use aws_serverless_patterns.Prelude.Int.{pos}
use aws_serverless_patterns.Py.Value.{end, Value, str}
use aws_serverless_patterns.Py.Exec.{ok}
use aws_serverless_patterns.Py.Sample.{sample_host}
use aws_serverless_patterns.ScheduledBatch.Handlers.{split, reduce, shard_result}
use aws_serverless_patterns.ScheduledBatch.Runs.{Tiles, split-Tiles, reduce-process-split}

split-Tiles_example : Tiles 0 4000 (split end 4)
split-Tiles_example = split-Tiles end 4

-- The third shard fails.
abbrev sample_errors : ℕ → Option Value
sample_errors i = if nat_eq i 2 then some (str "boom") else none

reduce-process-split_example :
    (reduce sample_host (map (shard_result sample_errors) (split end 4))
      ≡ ok (record {
        shards_total = 4;
        shards_succeeded = 3;
        shards_failed = 1;
        records_processed = pos 3000;
        status = "PARTIAL";
      }))
    × (3 + 1 ≡ 4)
reduce-process-split_example = reduce-process-split sample_host end sample_errors 4
