-- ===== src/ScheduledBatch/Runs.antt =====
-- patterns/scheduled-batch/src/handlers.py: a whole run, the shards that it is split into and the
-- summary of what became of them.
use aws_serverless_patterns.Prelude.{
  false, ◌∙◌, Option, none, some, if◌then◌else◌, nat_eq, ℕ, zero, suc, ◌+◌, ◌*◌, List, [], ◌∷◌, map,
  ◌≡◌, refl, arith, length, ap, ◌<◌,
}
use aws_serverless_patterns.Prelude.Int.{pos, ◌+ℤ◌, sub_ℕ}
use aws_serverless_patterns.Py.Value.{Value, Fields, get, get_or, str}
use mathlib.Core.Path.{subst}
use aws_serverless_patterns.Py.Host.{Host, int_of}
use aws_serverless_patterns.Py.Exec.{ok}
use aws_serverless_patterns.ScheduledBatch.Handlers.{
  Shard, shards_from, split, process, reduce, with_status, total_processed, shard_result,
  run_status, result_for, shard,
}

-- The shards, of which none is empty, follow one another without gap or overlap from `a` to `b`.
abbrev pub Tiles : ℕ → ℕ → List Shard → Type 0
Tiles a b [] = a ≡ b
Tiles a b (s ∷ ss) = (s.range_start ≡ a) × (a < s.range_end) × Tiles s.range_end b ss

shards_from-Tiles :
    (source : Value) (i n : ℕ) → Tiles (i * 1000) ((i + n) * 1000) (shards_from source i n)
shards_from-Tiles source i zero = omega arith
shards_from-Tiles source i (suc n) =
    let same : suc i + n ≡ i + suc n = omega arith in
    let next : suc i ≡ i + 1 = omega arith in
    let rest = shards_from-Tiles source (suc i) n in
    (
      refl,
      omega arith,
      subst (λ x. Tiles x ((i + suc n) * 1000) (shards_from source (suc i) n))
          (ap (λ x. x * 1000) next)
          (subst (λ x. Tiles (suc i * 1000) (x * 1000) (shards_from source (suc i) n)) same rest),
    )

-- The shards of a run, each of which starts below its end, follow one another without gap or
-- overlap from 0 to 1000 times their number.
pub split-Tiles : (event : Fields) (n : ℕ) → Tiles 0 (n * 1000) (split event n)
unfolding split
split-Tiles event n =
    let whole : 0 + n ≡ n = omega arith in
    subst (λ x. Tiles 0 (x * 1000) (split event n)) whole
      (shards_from-Tiles (get_or event "run_source" (str "manual")) 0 n)

abbrev well : Option Value → ℕ
well none = 1
well (some e) = 0

abbrev ill : Option Value → ℕ
ill none = 0
ill (some e) = 1

-- How many of the n shards from the i-th on end well, and how many fail.
abbrev pub finished : (ℕ → Option Value) → ℕ → ℕ → ℕ
finished errors i zero = 0
finished errors i (suc n) = well (errors i) + finished errors (suc i) n

abbrev pub failed : (ℕ → Option Value) → ℕ → ℕ → ℕ
failed errors i zero = 0
failed errors i (suc n) = ill (errors i) + failed errors (suc i) n

one_more : (i n : ℕ) → sub_ℕ ((i + 1) * 1000) (i * 1000) +ℤ pos (n * 1000) ≡ pos (suc n * 1000)
unfolding ◌+ℤ◌
one_more i n = ground arith

run_status_lem :
    (results : List Fields)
    → run_status results ≡ (if nat_eq (length results) 0 then "SUCCEEDED" else "PARTIAL")
run_status_lem [] = refl
run_status_lem (r ∷ rs) =
    let positive : nat_eq (suc (length rs)) 0 ≡ false = ground arith in rw positive refl

one_ends : (o : Option Value) → well o + ill o ≡ 1
one_ends none = refl
one_ends (some e) = refl

one_succeeds :
    (o : Option Value) (s : Shard) (rs : List Fields)
    → length (with_status "SUCCEEDED" (result_for o s ∷ rs))
      ≡ well o + length (with_status "SUCCEEDED" rs)
unfolding process get
one_succeeds none s rs = omega arith
one_succeeds (some e) s rs = omega arith

one_fails :
    (o : Option Value) (s : Shard) (rs : List Fields)
    → length (with_status "FAILED" (result_for o s ∷ rs)) ≡ ill o + length (with_status "FAILED" rs)
unfolding process get
one_fails none s rs = omega arith
one_fails (some e) s rs = omega arith

one_total :
    (host : Host) (source : Value) (o : Option Value) (i n : ℕ) (rs : List Fields)
    → total_processed host (with_status "SUCCEEDED" rs) ≡ ok (pos (n * 1000))
    → total_processed host (with_status "SUCCEEDED" (result_for o (shard source i) ∷ rs))
      ≡ ok (pos ((well o + n) * 1000))
unfolding process get int_of
one_total host source none i n rs rest =
    let same : 1 + n ≡ suc n = omega arith in rw (rest, one_more, same) refl
one_total host source (some e) i n rs rest = let same : 0 + n ≡ n = omega arith in rw same rest

module _ (host : Host) (source : Value) (errors : ℕ → Option Value) where
  abbrev results : ℕ → ℕ → List Fields
  results i n = map (shard_result errors) (shards_from source i n)

  counts : (i n : ℕ) → length (results i n) ≡ n
  counts i zero = refl
  counts i (suc n) = ap suc (counts (suc i) n)

  all_ended : (i n : ℕ) → finished errors i n + failed errors i n ≡ n
  all_ended i zero = refl
  all_ended i (suc n) = omega (arith, one_ends (errors i), all_ended (suc i) n)

  succeeded : (i n : ℕ) → length (with_status "SUCCEEDED" (results i n)) ≡ finished errors i n
  succeeded i zero = refl
  succeeded i (suc n) =
      one_succeeds (errors i) _ _ ∙ ap (λ x. well (errors i) + x) (succeeded (suc i) n)

  failures : (i n : ℕ) → length (with_status "FAILED" (results i n)) ≡ failed errors i n
  failures i zero = refl
  failures i (suc n) = one_fails (errors i) _ _ ∙ ap (λ x. ill (errors i) + x) (failures (suc i) n)

  totals :
      (i n : ℕ)
      → total_processed host (with_status "SUCCEEDED" (results i n))
        ≡ ok (pos (finished errors i n * 1000))
  totals i zero = refl
  totals i (suc n) = one_total host source (errors i) i _ _ (totals (suc i) n)

-- The summary of a run of n shards, any of which may fail, counts n shards, those that ended well,
-- those that failed, which are n together, and 1000 records for each that ended well; the run is
-- SUCCEEDED if none failed and else PARTIAL.
pub reduce-process-split :
    (host : Host) (event : Fields) (errors : ℕ → Option Value) (n : ℕ)
    → (reduce host (map (shard_result errors) (split event n))
        ≡ ok (record {
          shards_total = n;
          shards_succeeded = finished errors 0 n;
          shards_failed = failed errors 0 n;
          records_processed = pos (finished errors 0 n * 1000);
          status = if nat_eq (failed errors 0 n) 0 then "SUCCEEDED" else "PARTIAL";
        }))
      × (finished errors 0 n + failed errors 0 n ≡ n)
unfolding reduce split
reduce-process-split host event errors n =
    let source = get_or event "run_source" (str "manual") in
    (
      rw
          (
            totals host source errors 0 n,
            run_status_lem,
            succeeded host source errors 0 n,
            failures host source errors 0 n,
            counts host source errors 0 n,
          )
          refl,
      all_ended host source errors 0 n,
    )
