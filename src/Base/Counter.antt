-- ===== src/Base/Counter.antt =====
-- A Prometheus counter of requests, by method, path and status.
use Prim.Native.Nat.{ℕ, ◌+◌}
use Prim.Native.String.{String}
use mathlib.Core.Bool.{◌&&◌}
use text.Mathlib.Text.{◌==◌}
use reconx.Base.Tests.{leb, if◌then◌else◌}

abbrev pub Counter : Type 0
Counter = (method path : String) → (status : ℕ) → ℕ

-- WithLabelValues(method, path, status).Inc()
unfoldable pub inc : String → String → ℕ → Counter → Counter
inc method path status c m p s =
    if method == m && path == p && leb status s && leb s status then c m p s + 1 else c m p s

-- What a service keeps, and its counter.
pub record Observed (S : Type 0) : Type 0 where
  pub state : S
  pub http_requests_total : Counter
