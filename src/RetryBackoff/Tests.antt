-- ===== src/RetryBackoff/Tests.antt =====
-- The witnesses of this pattern's theorems: a batch of three records, of which one does not parse
-- and one raises.
use aws_serverless_patterns.Prelude.{
  [], ◌∷◌, none, some, ◌==◌, if◌then◌else◌, ◌≡◌, refl, arith, ◌≤◌,
}
use aws_serverless_patterns.Prelude.Int.{pos, ◌≤ℤ◌}
use aws_serverless_patterns.Py.Exec.{ok, World}
use aws_serverless_patterns.Py.Host.{Host, Environment, int_of}
use aws_serverless_patterns.Py.Sample.{sample_host, sample_world}
use aws_serverless_patterns.RetryBackoff.Curve.{Jitter, ceiling, compute_backoff_seconds}
use aws_serverless_patterns.RetryBackoff.Curve.Bounds.{
  unguarded, ceiling-eq-unguarded, compute_backoff_seconds_bounds,
}
use aws_serverless_patterns.RetryBackoff.Handler.{Calls, handle, parse_body}
use aws_serverless_patterns.RetryBackoff.Handler.Report.{Adds, handle-Reports}
use aws_serverless_patterns.Sqs.Sample.{sample_work, sample_batch, message}

abbrev counting_host : Host
counting_host = record sample_host { parse_int = λ s. some (pos 1) }

abbrev sample_env : Environment
sample_env name = if name == "QUEUE_URL" then some "queue" else none

abbrev top_jitter : Jitter
top_jitter = record { uniform = λ n c. c; uniform_le = λ n c. omega arith }

abbrev no_calls : Calls
no_calls = []

abbrev started : World Calls
started = sample_world no_calls

ceiling-eq-unguarded_example :
    ceiling (pos 40) (pos 5) (pos 900) ≡ unguarded (pos 40) (pos 5) (pos 900)
ceiling-eq-unguarded_example = ceiling-eq-unguarded (pos 40) (pos 5) (pos 900)

compute_backoff_seconds_bounds_example :
    (compute_backoff_seconds top_jitter 0 (pos 40) (pos 5) (pos 900) ≤ 43200)
    × (pos (compute_backoff_seconds top_jitter 0 (pos 40) (pos 5) (pos 900)) ≤ℤ pos 900)
compute_backoff_seconds_bounds_example =
    compute_backoff_seconds_bounds top_jitter 0 (pos 40) (pos 5) (pos 900)

handle-Reports_example :
    ((handle counting_host sample_env top_jitter sample_work sample_batch started).0
      ≡ ok ("m2" ∷ "m3" ∷ []))
    × Adds counting_host sample_env "queue"
        (message "m3" "down" ∷ [])
        []
        (handle counting_host sample_env top_jitter sample_work sample_batch started).1.cloud
unfolding int_of parse_body
handle-Reports_example =
    handle-Reports counting_host sample_env top_jitter sample_work "queue" sample_batch started refl
      ((pos 1, refl), ((pos 1, refl), ((pos 1, refl), tt)))
