-- ===== src/Resolution/Api/Server.antt =====
-- services/resolution/internal/api/handler.go: the routes, the counter around each handler, and how a
-- handler reads a request and writes its reply. net/http's multiplexer and encoding/json are
-- parameters; the texts of errors and the histogram of durations are left out.
use reconx.Base.{ℕ, String, List, [], ◌∷◌}
use reconx.Base.Exec.{Result, ok, err}
use reconx.Base.Counter.{Observed, inc}
use reconx.Base.Int.{ℤ, int32}
use reconx.Resolution.Tables.{Database, Env, Db, RetryQueueRow}
use reconx.Resolution.Queries.Mismatches.{MismatchedRow}
use reconx.Resolution.Api.{
  ApiConfig, Body, AutoResolveRequest, AutoResolveResponse, EnqueueRetryRequest,
  EnqueueRetryResponse, AuditTrailResponse, Page, auto_resolve, enqueue_handler, audit_handler,
  retry_queue_handler, mismatches_handler,
}

-- `query` is r.URL.Query().Get.
pub record ApiRequest : Type 0 where
  pub ref : String
  pub query : String → String
  pub body : List ℕ

pub data ApiBody : Type 0 where
  error_response : ApiBody
  auto_resolve_response : AutoResolveResponse → ApiBody
  enqueue_retry_response : EnqueueRetryResponse → ApiBody
  audit_trail_response : AuditTrailResponse → ApiBody
  retry_queue_response : Page RetryQueueRow → ApiBody
  list_mismatches_response : Page MismatchedRow → ApiBody
  health_response : (status service : String) → ApiBody

pub record Reply : Type 0 where
  pub status : ℕ
  pub body : ApiBody

abbrev pub Route : Type 0 → Type 0
Route S = ApiRequest → S → Reply × S

-- What the handlers call of Go's libraries: json.Decode into the two bodies, the number that
-- strconv.Atoi returns, also beside an error, and the one of strconv.ParseInt(…, 10, 32).
pub record Libs : Type 0 where
  pub decode_auto : List ℕ → Body AutoResolveRequest
  pub decode_retry : List ℕ → Body EnqueueRetryRequest
  pub atoi : String → ℤ
  pub parse_int_32 : String → ℤ

abbrev pub write_json : ℕ → ApiBody → Reply
write_json status body = record { status = status; body = body }

abbrev pub write_error : ℕ → Reply
write_error status = write_json status error_response

-- A handler's reply: its result with 200, or the status of its error.
abbrev pub reply_of : {A : Type 0} → (A → ApiBody) → Result ℕ A → Reply
reply_of body (ok a) = write_json 200 (body a)
reply_of body (err status) = write_error status

unfoldable pub served : {A : Type 0} → (A → ApiBody) → Db ℕ A → Database → Reply × Database
served body handler db = let (result, db') = handler db in (reply_of body result, db')

-- wrap: the path is the route's pattern, and the status the one that was written.
unfoldable pub wrap : {S : Type 0} → (method path : String) → Route S → Route (Observed S)
unfolding inc
wrap method path fn req o =
    let (reply, s) = fn req o.state in
    (
      reply,
      record {
        state = s;
        http_requests_total = inc method path reply.status o.http_requests_total;
      },
    )

-- health, which is not counted.
abbrev pub health : {S : Type 0} → Route S
health req s = (write_json 200 (health_response "ok" "reconx-resolution"), s)

module _ (libs : Libs) (quote : String → String) (cfg : ApiConfig) (env : Env) where
  unfoldable pub auto_resolve_route : Route Database
  unfolding served auto_resolve
  auto_resolve_route req =
      served auto_resolve_response (auto_resolve quote cfg env req.ref (libs.decode_auto req.body))

  unfoldable pub enqueue_retry_route : Route Database
  unfolding served enqueue_handler
  enqueue_retry_route req =
      served enqueue_retry_response (enqueue_handler cfg env req.ref (libs.decode_retry req.body))

  unfoldable pub get_audit_trail_route : Route Database
  unfolding served audit_handler
  get_audit_trail_route req = served audit_trail_response (audit_handler env req.ref)

  unfoldable pub get_retry_queue_route : Route Database
  unfolding served retry_queue_handler
  get_retry_queue_route req = served retry_queue_response (
      retry_queue_handler env (libs.atoi (req.query "page_size")) (req.query "page_token")
        (req.query "status"))

  unfoldable pub list_mismatches_route : Route Database
  unfolding served mismatches_handler
  list_mismatches_route req = served list_mismatches_response (
      mismatches_handler env (int32 (libs.parse_int_32 (req.query "page_size")))
        (req.query "page_token") (req.query "source"))

  -- RegisterRoutes
  unfoldable pub register_routes : List (String × Route (Observed Database))
  unfolding wrap
  register_routes =
      ("POST /v1/resolve/auto/{ref}", wrap "POST" "/v1/resolve/auto/{ref}" auto_resolve_route)
      ∷ ("POST /v1/resolve/retry/{ref}", wrap "POST" "/v1/resolve/retry/{ref}" enqueue_retry_route)
      ∷ ("GET /v1/resolve/audit/{ref}", wrap "GET" "/v1/resolve/audit/{ref}" get_audit_trail_route)
      ∷ ("GET /v1/resolve/retry-queue", wrap "GET" "/v1/resolve/retry-queue" get_retry_queue_route)
      ∷ ("GET /v1/resolve/mismatches", wrap "GET" "/v1/resolve/mismatches" list_mismatches_route)
      ∷ ("GET /health", health)
      ∷ []
