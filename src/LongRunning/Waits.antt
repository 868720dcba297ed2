-- ===== src/LongRunning/Waits.antt =====
-- The numbers that a poll computes: the next wait and the progress.
use aws_serverless_patterns.Prelude.{ℕ, zero, suc, ◌+◌, ◌^◌, ◌≤◌, ◌≡◌, arith}
use aws_serverless_patterns.Prelude.Int.{ℤ, pos, scale, min_ℤ, ◌≤ℤ◌}
use aws_serverless_patterns.Py.Host.{Host, Environment, int_env}
use aws_serverless_patterns.LongRunning.Handlers.{backoff_seconds}
use native.Mathlib.Nat.{add-zero, add-suc, pow-suc}

pow_grows : (m n : ℕ) → 2 ^ m ≤ 2 ^ (m + n)
pow_grows m zero = rw add-zero (omega arith)
pow_grows m (suc n) = rw (add-suc, pow-suc) (omega (arith, pow_grows m n))

-- The configured base and cap of the waits.
abbrev pub wait_base : Host → Environment → ℤ
wait_base host env = int_env host env "POLL_INTERVAL_BASE_SECONDS" (pos 30)

abbrev pub wait_cap : Host → Environment → ℤ
wait_cap host env = int_env host env "POLL_INTERVAL_MAX_SECONDS" (pos 900)

scale_grows : (b p q : ℕ) → p ≤ q → scale (pos b) p ≤ℤ scale (pos b) q
unfolding scale
scale_grows zero p q h = omega arith
scale_grows (suc b) p q h = omega (arith, scale_grows b p q h)

min_grows : (c x y : ℤ) → x ≤ℤ y → min_ℤ c x ≤ℤ min_ℤ c y
min_grows c x y h = ground arith

-- With a base that is not negative, each wait of the loop is at least the one before it, and every
-- wait is at most the cap.
pub backoff_seconds_grows :
    (host : Host) (env : Environment) (b m n : ℕ)
    → wait_base host env ≡ pos b
    → (backoff_seconds host env (pos m) ≤ℤ backoff_seconds host env (pos (m + n)))
      × (backoff_seconds host env (pos m) ≤ℤ wait_cap host env)
unfolding backoff_seconds
backoff_seconds_grows host env b m n based = (
  rw based (
      min_grows (wait_cap host env) (scale (pos b) (2 ^ m)) (scale (pos b) (2 ^ (m + n)))
        (scale_grows b _ _ (pow_grows m n))),
  ground arith,
)
