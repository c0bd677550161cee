-- ===== src/Ingestion/RateLimit.antt =====
-- services/ingestion/internal/ratelimit/ratelimit.go: one token bucket for each source. The buckets of
-- golang.org/x/time/rate and float64 are parameters. Calls of Allow and SetLimit are taken one after the
-- other: a SetLimit that falls between the look-up and the token of an Allow is not modelled.
pub mod Sources
use mathlib.Core.Option
use reconx.Base.{
  ℕ, String, Bool, ◌≡◌, ◌∙◌, ◌≢◌, Option, none, some, List, [], ◌∷◌, ◌==◌, if◌then◌else◌, ltb,
}
use reconx.Base.Int.{ℤ, pos, negsuc}
use reconx.Base.Table.{find, upsert}

-- What the code calls of the library and of float64: int(rps * 10), rate.NewLimiter with a burst, and
-- Allow at a time, which answers and leaves the bucket changed.
pub record Rates (Rps Bucket : Type 0) : Type 0 where
  pub ten_times : Rps → ℤ
  pub new_limiter : Rps → ℕ → Bucket
  pub take_token : ℕ → Bucket → Bool × Bucket

pub record Limiter (Rps Bucket : Type 0) : Type 0 where
  pub limiters : List (String × Bucket)
  pub defaults : Rps

abbrev pub source_key : {B : Type 0} → String × B → String
source_key row = row.0

abbrev at_least_one : ℤ → ℕ
at_least_one (pos n) = if ltb n 1 then 1 else n
at_least_one (negsuc n) = 1

module _ {Rps Bucket : Type 0} (rates : Rates Rps Bucket) where
  unfoldable pub burst_for : Rps → ℕ
  burst_for rps = at_least_one (rates.ten_times rps)

  unfoldable pub bucket_for : Rps → Bucket
  unfolding burst_for
  bucket_for rps = rates.new_limiter rps (burst_for rps)

  -- `l.limiters[source] = bucket`
  unfoldable pub put : String → Bucket → Limiter Rps Bucket → Limiter Rps Bucket
  put source bucket l = record l {
    limiters = upsert source_key (source, bucket) (λ row. (row.0, bucket)) l.limiters;
  }

  unfoldable pub set_limit : String → Rps → Limiter Rps Bucket → Limiter Rps Bucket
  unfolding put bucket_for
  set_limit source rps l = put source (bucket_for rps) l

  -- The loop over the overrides, in any order that a map has its keys.
  unfoldable pub new_limits : List (String × Rps) → Limiter Rps Bucket → Limiter Rps Bucket
  unfolding set_limit
  new_limits [] l = l
  new_limits ((source, rps) ∷ overrides) l = new_limits overrides (set_limit source rps l)

  unfoldable pub new : Rps → List (String × Rps) → Limiter Rps Bucket
  unfolding new_limits
  new default_rps overrides =
      new_limits overrides (record { limiters = []; defaults = default_rps })

  -- The bucket of a source, and the limiter with it in its map.
  unfoldable pub get_or_create : String → Limiter Rps Bucket → Bucket × Limiter Rps Bucket
  unfolding put bucket_for
  get_or_create source l = elim (find source_key source l.limiters) [
    | some row ↦ (row.1, l)
    | none ↦ (bucket_for l.defaults, put source (bucket_for l.defaults) l)
  ]

  abbrev pub looked_up :
      String → Option (String × Bucket) → Limiter Rps Bucket → Bucket × Limiter Rps Bucket
  looked_up source none l = get_or_create source l
  looked_up source (some row) l = (row.1, l)

  -- The bucket is shared by its pointer: taking a token changes it in the map.
  unfoldable pub allow : ℕ → String → Limiter Rps Bucket → Bool × Limiter Rps Bucket
  unfolding get_or_create put
  allow now source l =
      let (bucket, l') = looked_up source (find source_key source l.limiters) l in
      let (answer, bucket') = rates.take_token now bucket in (answer, put source bucket' l')
