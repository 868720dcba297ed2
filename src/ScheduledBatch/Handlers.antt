-- ===== src/ScheduledBatch/Handlers.antt =====
-- patterns/scheduled-batch/src/handlers.py, but for the times that `_now_iso` puts into the answers.
-- `range(n)` of a negative number of shards is empty, so the number of shards is a natural number.
use aws_serverless_patterns.Prelude.{
  Option, none, some, ℕ, zero, suc, ◌+◌, ◌*◌, String, List, [], ◌∷◌, length, if◌then◌else◌,
}
use aws_serverless_patterns.Prelude.Int.{ℤ, pos, ◌+ℤ◌, sub_ℕ}
use aws_serverless_patterns.Py.Value.{Value, int, str, Fields, field, end, get, get_or, is_text}
use aws_serverless_patterns.Py.Host.{Host, int_of}
use aws_serverless_patterns.Py.Exec.{Result, ok, err, Raised}

pub record Shard : Type 0 where
  pub shard_id : ℕ
  pub run_source : Value
  pub range_start : ℕ
  pub range_end : ℕ

abbrev pub shard : Value → ℕ → Shard
shard run_source i = record {
  shard_id = i;
  run_source = run_source;
  range_start = i * 1000;
  range_end = (i + 1) * 1000;
}

-- The shards from the i-th on.
abbrev pub shards_from : Value → ℕ → ℕ → List Shard
shards_from run_source i zero = []
shards_from run_source i (suc n) = shard run_source i ∷ shards_from run_source (suc i) n

unfoldable pub split : Fields → ℕ → List Shard
split event shard_count = shards_from (get_or event "run_source" (str "manual")) 0 shard_count

unfoldable pub process : Shard → Fields
process s = field "shard_id" (int (pos s.shard_id)) (
    field "status" (str "SUCCEEDED")
      (field "processed" (int (sub_ℕ s.range_end s.range_start)) end))

pub record Summary : Type 0 where
  pub shards_total : ℕ
  pub shards_succeeded : ℕ
  pub shards_failed : ℕ
  pub records_processed : ℤ
  pub status : String

abbrev pub with_status : String → List Fields → List Fields
with_status status [] = []
with_status status (r ∷ rs) =
    let rest = with_status status rs in if is_text (get "status" r) status then r ∷ rest else rest

abbrev pub add_results : Result (Raised ⊥) ℤ → Result (Raised ⊥) ℤ → Result (Raised ⊥) ℤ
add_results (err e) s = err e
add_results (ok a) (err e) = err e
add_results (ok a) (ok b) = ok (a +ℤ b)

abbrev pub total_processed : Host → List Fields → Result (Raised ⊥) ℤ
total_processed host [] = ok (pos 0)
total_processed host (r ∷ rs) =
    add_results (int_of host (get_or r "processed" (int (pos 0)))) (total_processed host rs)

abbrev pub run_status : List Fields → String
run_status [] = "SUCCEEDED"
run_status (r ∷ rs) = "PARTIAL"

abbrev pub summary_of : List Fields → ℤ → Summary
summary_of results total = record {
  shards_total = length results;
  shards_succeeded = length (with_status "SUCCEEDED" results);
  shards_failed = length (with_status "FAILED" results);
  records_processed = total;
  status = run_status (with_status "FAILED" results);
}

abbrev pub conclude : List Fields → Result (Raised ⊥) ℤ → Result (Raised ⊥) Summary
conclude results (ok total) = ok (summary_of results total)
conclude results (err e) = err e

unfoldable pub reduce : Host → List Fields → Result (Raised ⊥) Summary
reduce host results = conclude results (total_processed host (with_status "SUCCEEDED" results))

-- What the Map state collects for a shard: the payload of its task or, where the task failed for
-- good, what `ShardFailed` makes of the error.
abbrev pub result_for : Option Value → Shard → Fields
result_for none s = process s
result_for (some error) s =
    field "shard_id" (int (pos s.shard_id))
      (field "status" (str "FAILED") (field "error" error end))

abbrev pub shard_result : (ℕ → Option Value) → Shard → Fields
shard_result errors s = result_for (errors s.shard_id) s
