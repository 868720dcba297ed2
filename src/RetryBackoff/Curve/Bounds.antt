-- ===== src/RetryBackoff/Curve/Bounds.antt =====
-- The curve never leaves its bounds, and the guard on the exponent changes nothing.
use aws_serverless_patterns.Prelude.{zero, suc, ℕ, ◌-◌, ◌^◌, ◌≤◌, ◌≡◌, ◌+◌, arith}
use aws_serverless_patterns.Prelude.Int.{ℤ, scale, negsuc, ◌≤ℤ◌, pos_part, pos, max_ℤ}
use aws_serverless_patterns.RetryBackoff.Curve.{
  ceiling, clip, attempt_of, sqs_max_visibility_seconds, compute_backoff_seconds, Jitter,
}
use native.Mathlib.Nat.{add-zero, add-suc, pow-suc, le_trans}
use Prim.Native.Nat.{min}
use native.Mathlib.Decide.{dec_lt}

-- The curve with no guard on the exponent.
abbrev pub unguarded : ℤ → ℤ → ℤ → ℤ
unguarded receive_count base cap =
    clip cap (scale base (2 ^ (pos_part (attempt_of receive_count) - 1)))

clip_high : (cap x y : ℤ) → pos 43200 ≤ℤ x → pos 43200 ≤ℤ y → clip cap x ≡ clip cap y
unfolding clip
clip_high cap x y p q = ground arith

clip_low : (cap x y : ℤ) → x ≤ℤ pos 0 → y ≤ℤ pos 0 → clip cap x ≡ clip cap y
unfolding clip
clip_low cap x y p q = ground arith

pow_grows : (m n : ℕ) → 2 ^ m ≤ 2 ^ (m + n)
pow_grows m zero = rw add-zero (omega arith)
pow_grows m (suc n) = rw (add-suc, pow-suc) (omega (arith, pow_grows m n))

scale_high : (b p : ℕ) → 43200 ≤ p → pos 43200 ≤ℤ scale (pos (suc b)) p
unfolding scale
scale_high b p h = omega arith

scale_low : (b p : ℕ) → scale (negsuc b) p ≤ℤ pos 0
unfolding scale
scale_low b p = ground arith

pow_past : (e : ℕ) → 30 ≤ e → 43200 ≤ 2 ^ e
pow_past e h =
    let grown : 2 ^ 30 ≤ 2 ^ (30 + (e - 30)) = pow_grows 30 (e - 30) in
    let whole : 30 + (e - 30) ≡ e = omega arith in le_trans (omega arith) (rw whole at grown)

past_limit :
    (base cap : ℤ) (p q : ℕ)
    → 43200 ≤ p
    → 43200 ≤ q
    → clip cap (scale base p) ≡ clip cap (scale base q)
past_limit (pos zero) cap p q hp hq = unfold scale in ground arith
past_limit (pos (suc b)) cap p q hp hq = clip_high cap _ _ (scale_high b p hp) (scale_high b q hq)
past_limit (negsuc b) cap p q hp hq = clip_low cap _ _ (scale_low b p) (scale_low b q)

saturation :
    (base cap : ℤ) (e : ℕ) → clip cap (scale base (2 ^ min e 30)) ≡ clip cap (scale base (2 ^ e))
saturation base cap e = elim (dec_lt e 30) [
  | yes below ↦ let same : min e 30 ≡ e = omega arith in rw same
  | no above ↦
      let same : min e 30 ≡ 30 = omega arith in
      rw same (past_limit base cap (2 ^ 30) (2 ^ e) (omega arith) (pow_past e (omega arith)))
]

-- Saturating the exponent at 30 never changes the ceiling, for any count, base and cap.
pub ceiling-eq-unguarded :
    (receive_count base cap : ℤ) → ceiling receive_count base cap ≡ unguarded receive_count base cap
unfolding ceiling
ceiling-eq-unguarded receive_count base cap =
    saturation base cap (pos_part (attempt_of receive_count) - 1)

ceiling_bounds :
    (receive_count base cap : ℤ)
    → (ceiling receive_count base cap ≤ℤ pos sqs_max_visibility_seconds)
      × (ceiling receive_count base cap ≤ℤ max_ℤ (pos 0) cap)
unfolding ceiling clip
ceiling_bounds receive_count base cap = ground arith

pos_part_le : (x : ℤ) (c : ℕ) → x ≤ℤ pos c → pos_part x ≤ c
pos_part_le x c h = ground arith

pos_le_trans : (a b : ℕ) (y : ℤ) → a ≤ b → pos b ≤ℤ y → pos a ≤ℤ y
pos_le_trans a b y h k = omega arith

pos_pos_part_le : (x y : ℤ) → x ≤ℤ max_ℤ (pos 0) y → pos (pos_part x) ≤ℤ max_ℤ (pos 0) y
pos_pos_part_le x y h = ground arith

-- The delay is at most 12 hours, and at most the cap, or 0 where the cap is negative, for any
-- count, base and cap and any answer of the random source.
pub compute_backoff_seconds_bounds :
    (rng : Jitter) (n : ℕ) (receive_count base cap : ℤ)
    → (compute_backoff_seconds rng n receive_count base cap ≤ sqs_max_visibility_seconds)
      × (pos (compute_backoff_seconds rng n receive_count base cap) ≤ℤ max_ℤ (pos 0) cap)
unfolding compute_backoff_seconds
compute_backoff_seconds_bounds rng n receive_count base cap =
    let top = ceiling receive_count base cap in
    let drawn : rng.uniform n (pos_part top) ≤ pos_part top = rng.uniform_le n (pos_part top) in
    let (limit, capped) = ceiling_bounds receive_count base cap in
    (
      le_trans drawn (pos_part_le top _ limit),
      pos_le_trans _ _ _ drawn (pos_pos_part_le top cap capped),
    )

ceiling_at_least : (receive_count base cap : ℤ) → pos 0 ≤ℤ ceiling receive_count base cap
unfolding ceiling clip
ceiling_at_least receive_count base cap = ground arith

pos_pos_part : (x : ℤ) → pos 0 ≤ℤ x → pos (pos_part x) ≤ℤ x
pos_pos_part x h = ground arith

-- The delay is at most the unguarded curve of its receive count.
pub compute_backoff_seconds_curve :
    (rng : Jitter) (n : ℕ) (receive_count base cap : ℤ)
    → pos (compute_backoff_seconds rng n receive_count base cap) ≤ℤ unguarded receive_count base cap
unfolding compute_backoff_seconds
compute_backoff_seconds_curve rng n receive_count base cap =
    rw (← ceiling-eq-unguarded receive_count base cap) (
      pos_le_trans _ _ _ (rng.uniform_le n (pos_part (ceiling receive_count base cap)))
        (pos_pos_part _ (ceiling_at_least receive_count base cap)))
