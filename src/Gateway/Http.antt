-- ===== src/Gateway/Http.antt =====
-- services/gateway/internal/handlers/handlers.go: requests, responses and the helpers that write them.
-- A body is given by the fields of its JSON object; the header Content-Type is kept, others are not set.
use reconx.Base.{ℕ, String, Bool, List}
use reconx.Proto.{Code}
use reconx.Proto as P

-- `headers` is r.Header.Get and `path_value` r.PathValue: both are "" where nothing is set.
pub record Request : Type 0 where
  pub method : String
  pub path : String
  pub raw_query : String
  pub headers : String → String
  pub path_value : String → String
  pub body : List ℕ

pub record StateJson : Type 0 where
  pub transaction_ref : String
  pub status : String
  pub details : List (String × Bool)
  pub last_updated_ms : ℕ

pub data Body : Type 0 where
  error_body : String → Body
  ingest_body : (internal_id : String) (success : Bool) → Body
  state_body : StateJson → Body
  resolve_body : (success : Bool) (new_status : String) → Body
  page_body : (items : List StateJson) (next_page_token : String) → Body
  health_body : (status : String) (services : List (String × String)) → Body
  raw_body : List ℕ → Body

pub record Response : Type 0 where
  pub status : ℕ
  pub content_type : String
  pub body : Body

-- A handler, over what the services behind it keep.
abbrev pub Handler : Type 0 → Type 0
Handler S = Request → S → Response × S

unfoldable pub write_json : ℕ → Body → Response
write_json code body = record { status = code; content_type = "application/json"; body = body }

unfoldable pub write_error : ℕ → String → Response
unfolding write_json
write_error code msg = write_json code (error_body msg)

-- An error of a gRPC call; not every error carries a status.
pub data RpcError : Type 0 where
  status_error : Code → String → RpcError
  other_error : String → RpcError

abbrev pub http_code : Code → ℕ
http_code P.not_found = 404
http_code P.invalid_argument = 400
http_code P.failed_precondition = 409
http_code P.already_exists = 409
http_code P.unauthenticated = 401
http_code P.permission_denied = 403
http_code P.resource_exhausted = 429
http_code P.unavailable = 503
http_code _ = 500

unfoldable pub grpc_to_http : RpcError → ℕ
grpc_to_http (status_error c msg) = http_code c
grpc_to_http (other_error msg) = 500

unfoldable pub grpc_message : RpcError → String
grpc_message (status_error c msg) = msg
grpc_message (other_error msg) = msg
