-- ===== src/Gateway/Proxy.antt =====
-- services/gateway/internal/handlers/handlers.go: the four routes that are forwarded to the REST API of
-- services/resolution, the health check, and the table of routes.
use Prim.Native.String.{◌++◌ as ◌<>◌}
use reconx.Base.{
  ℕ, String, Bool, true, false, ◌&&◌, Option, none, some, List, [], ◌∷◌, ◌==◌, if◌then◌else◌, leb,
  map,
}
use reconx.Gateway.Http.{Response, Handler, health_body, raw_body, write_json, write_error}

-- A request to the REST API: the method and body of the one that is forwarded, at the target.
pub record UpstreamRequest : Type 0 where
  pub method : String
  pub target : String
  pub content_type : String
  pub body : List ℕ

pub record UpstreamResponse : Type 0 where
  pub status : ℕ
  pub content_type : String
  pub body : List ℕ

-- The client of the REST API; `is_target` says whether http.NewRequest takes the target, and `send`
-- has no response where the service is out of reach.
pub record RestClient (S : Type 0) : Type 0 where
  pub base_url : String
  pub is_target : String → Bool
  pub send : UpstreamRequest → S → Option UpstreamResponse × S

-- The target, given the path and the raw query.
unfoldable pub target_url : String → String → String → String
target_url base upstream_path raw_query =
    if raw_query == "" then base <> upstream_path else (base <> upstream_path) <> ("?" <> raw_query)

abbrev pub piped : {S : Type 0} → Option UpstreamResponse × S → Response × S
piped (none, s) = (write_error 502 "resolution service unavailable", s)
piped (some resp, s) = (
  record { status = resp.status; content_type = resp.content_type; body = raw_body resp.body },
  s,
)

module _ {S : Type 0} (client : RestClient S) where
  abbrev pub send_to : String → Handler S
  send_to target req s =
      if client.is_target target
      then piped (
          client.send
            (record {
              method = req.method;
              target = target;
              content_type = req.headers "Content-Type";
              body = req.body;
            })
            s)
      else (write_error 500 "proxy error", s)

  unfoldable pub proxy_to_resolution : String → Handler S
  unfolding target_url write_error
  proxy_to_resolution upstream_path req s =
      send_to (target_url client.base_url upstream_path req.raw_query) req s

  -- What the three routes with a reference share.
  abbrev proxy_ref : String → Handler S
  proxy_ref upstream_prefix req s =
      let ref = req.path_value "ref" in
      if ref == ""
      then (write_error 400 "ref is required", s)
      else proxy_to_resolution (upstream_prefix <> ref) req s

  unfoldable pub auto_resolve_proxy : Handler S
  unfolding proxy_to_resolution
  auto_resolve_proxy = proxy_ref "/v1/resolve/auto/"

  unfoldable pub retry_proxy : Handler S
  unfolding proxy_to_resolution
  retry_proxy = proxy_ref "/v1/resolve/retry/"

  unfoldable pub audit_proxy : Handler S
  unfolding proxy_to_resolution
  audit_proxy = proxy_ref "/v1/resolve/audit/"

  unfoldable pub retry_queue_proxy : Handler S
  unfolding proxy_to_resolution
  retry_queue_proxy = proxy_to_resolution "/v1/resolve/retry-queue"

-- A ping, given the status of the response; none stands for any error.
unfoldable pub ping_upstream : Option ℕ → Bool
ping_upstream none = false
ping_upstream (some status) = leb 200 status && leb status 200

abbrev pub service_status : Bool → String
service_status true = "ok"
service_status false = "unhealthy"

-- The loop over the results.
unfoldable pub overall : List (String × Bool) → String
overall [] = "ok"
overall ((name, up) ∷ results) = let rest = overall results in if up then rest else "degraded"

abbrev pub upstreams : List String
upstreams = "ingestion" ∷ "engine" ∷ "resolution" ∷ []

-- The health check, given what a GET of a service's health URL returns.
unfoldable pub health : {S : Type 0} → (String → Option ℕ) → Handler S
unfolding ping_upstream overall write_json
health get req s =
    let results : List (String × Bool) = map (λ name. (name, ping_upstream (get name))) upstreams in
    let status = overall results in
    (
      write_json (if status == "ok" then 200 else 503)
          (health_body status (map (λ (r : String × Bool). (r.0, service_status r.1)) results)),
      s,
    )
