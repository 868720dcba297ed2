-- ===== src/RetryBackoff/Curve.antt =====
-- `compute_backoff_seconds` up to the jitter: the ceiling of the delay.
pub mod Bounds
use aws_serverless_patterns.Prelude.{ℕ, ◌-◌, ◌^◌, ◌≤◌}
use aws_serverless_patterns.Prelude.Int.{ℤ, scale, pos_part, max_ℤ, pos, min_ℤ}
use Prim.Native.Nat.{min}

abbrev pub sqs_max_visibility_seconds : ℕ
sqs_max_visibility_seconds = 43200

abbrev pub attempt_of : ℤ → ℤ
attempt_of receive_count = max_ℤ (pos 1) receive_count

-- `min(attempt - 1, 30)`; an attempt is at least 1.
abbrev pub exponent : ℤ → ℕ
exponent receive_count = min (pos_part (attempt_of receive_count) - 1) 30

-- `max(0, min(cap, x, …))`
unfoldable pub clip : ℤ → ℤ → ℤ
clip cap x = max_ℤ (pos 0) (min_ℤ (min_ℤ cap x) (pos sqs_max_visibility_seconds))

unfoldable pub ceiling : ℤ → ℤ → ℤ → ℤ
ceiling receive_count base cap = clip cap (scale base (2 ^ exponent receive_count))

-- `uniform n c` is `int` of the n-th answer of `rng.uniform(0, c)`, which lies between 0 and `c`.
pub record Jitter : Type 0 where
  pub uniform : ℕ → ℕ → ℕ
  pub uniform_le : (n c : ℕ) → uniform n c ≤ c

unfoldable pub compute_backoff_seconds : Jitter → ℕ → ℤ → ℤ → ℤ → ℕ
compute_backoff_seconds rng n receive_count base cap =
    rng.uniform n (pos_part (ceiling receive_count base cap))
