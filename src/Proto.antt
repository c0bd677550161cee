-- ===== src/Proto.antt =====
-- What the services exchange: proto/gen/go/common, engine and resolution, and the gRPC status codes.
use reconx.Base.{ℕ, String, Bool, List}

-- ReconStatus; an enum of proto3 also carries numbers that no name stands for.
pub data ReconStatus : Type 0 where
  status_unspecified pending matched mismatched resolved : ReconStatus
  unrecognized : ℕ → ReconStatus

-- The codes of google.golang.org/grpc/codes.
pub data Code : Type 0 where
  ok canceled unknown invalid_argument deadline_exceeded not_found already_exists : Code
  permission_denied resource_exhausted failed_precondition aborted out_of_range : Code
  unimplemented internal unavailable data_loss unauthenticated : Code

pub record MatchDetail : Type 0 where
  pub system_name : String
  pub discrepancy_found : Bool

pub record StateResponse : Type 0 where
  pub transaction_ref : String
  pub status : ReconStatus
  pub details : List MatchDetail
  pub last_updated : ℕ
