-- ===== src/Resolution/Worker/Backoff.antt =====
-- worker.go, nextRetryTime: capped exponential backoff.
use Prim.Native.Nat.{min}
use native.Mathlib.Nat.{pow-le-pow_right, mul-le-mul_left}
use reconx.Base.{ℕ, ◌+◌, ◌-◌, ◌*◌, ◌^◌, ◌≤◌, ◌≡◌, arith}
use reconx.Resolution.Tables.{Env}
use reconx.Resolution.Worker.{RetryConfig, backoff_secs, next_retry_time}

backoff_secs-eq-min :
    (cfg : RetryConfig) (attempt : ℕ)
    → backoff_secs cfg attempt
      ≡ min (cfg.base_backoff_secs * 2 ^ (attempt - 1)) cfg.max_backoff_secs
unfolding backoff_secs
backoff_secs-eq-min cfg attempt = ground arith

-- Where the cap stands for fewer than 2 ^ 63 nanoseconds, the next retry lies in the future by the
-- least of the cap and of the base doubled once for each attempt after the first.
pub next_retry_time_lem :
    (cfg : RetryConfig) (env : Env) (attempt : ℕ)
    → cfg.max_backoff_secs ≤ 9223372036
    → next_retry_time cfg env attempt
      ≡ env.now + min (cfg.base_backoff_secs * 2 ^ (attempt - 1)) cfg.max_backoff_secs * 1000000000
unfolding next_retry_time
next_retry_time_lem cfg env attempt h = ground arith

-- A later attempt never waits less than an earlier one, and none waits longer than the cap.
backoff_secs_mono :
    (cfg : RetryConfig) (attempt later : ℕ)
    → attempt ≤ later
    → (backoff_secs cfg attempt ≤ backoff_secs cfg later)
      × (backoff_secs cfg later ≤ cfg.max_backoff_secs)
backoff_secs_mono cfg attempt later h =
    let grows : 2 ^ (attempt - 1) ≤ 2 ^ (later - 1) =
      pow-le-pow_right (omega arith) (omega arith) in
    let scaled : cfg.base_backoff_secs * 2 ^ (attempt - 1)
        ≤ cfg.base_backoff_secs * 2 ^ (later - 1) =
      mul-le-mul_left cfg.base_backoff_secs grows in
    omega (arith, backoff_secs-eq-min cfg attempt, backoff_secs-eq-min cfg later)
