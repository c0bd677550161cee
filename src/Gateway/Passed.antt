-- ===== src/Gateway/Passed.antt =====
-- handlers.go, the forwarded routes, with the REST API of services/resolution behind them.
use Prim.Native.String.{◌++◌ as ◌<>◌}
use Prim.Native.Char.{Char, code}
use reconx.Base.{
  ℕ, String, Bool, true, ◌&&◌, ◌||◌, ◌≡◌, ◌≢◌, refl, Option, some, none, List, [], ◌∷◌, ◌==◌, leb,
  if◌then◌else◌, ==-false,
}
use reconx.Base.Counter.{Observed}
use reconx.Resolution.Tables.{Database, Env}
use reconx.Resolution.Api.{ApiConfig}
use reconx.Resolution.Api.Server.{
  ApiRequest, ApiBody, Reply, Route, Libs, wrap, register_routes, auto_resolve_route,
  enqueue_retry_route, get_audit_trail_route,
}
use reconx.Gateway.Http.{Request, Response, raw_body}
use reconx.Gateway.Proxy.{
  UpstreamRequest, RestClient, proxy_to_resolution, target_url, auto_resolve_proxy, retry_proxy,
  audit_proxy,
}

-- Letters, digits, - and _: what stands for itself in the path of a URL.
abbrev is_plain_char : Char → Bool
is_plain_char c =
    (leb 48 (code c) && leb (code c) 57)
    || (leb 65 (code c) && leb (code c) 90)
    || (leb 97 (code c) && leb (code c) 122)
    || (leb 45 (code c) && leb (code c) 45)
    || (leb 95 (code c) && leb (code c) 95)

unfoldable pub is_plain : String → Bool
is_plain String.[] = true
is_plain (String.◌∷◌ c s) = is_plain_char c && is_plain s

abbrev pub find_route : {S : Type 0} → String → List (String × Route S) → Option (Route S)
find_route pattern [] = none
find_route pattern ((p, route) ∷ routes) =
    if p == pattern then some route else find_route pattern routes

-- A server with net/http's multiplexer over a table of routes.
abbrev pub Serve : Type 0 → Type 0
Serve S = List (String × Route S) → UpstreamRequest → S → Reply × S

-- The request that a route receives.
abbrev pub asked : String → List ℕ → ApiRequest
asked ref body = record { ref = ref; query = λ _. ""; body = body }

-- What net/http documents of a pattern that ends in {ref}, for a table: a request with its method whose
-- path is the prefix and a plain segment goes to the pattern's route, with the segment as ref.
abbrev pub IsDispatched :
    {S : Type 0} → Serve S → String → List (String × Route S) → (method prefix : String) → Type 0
IsDispatched {S} serve base routes method prefix =
    (ref : String) (route : Route S) (content_type : String) (body : List ℕ) (s : S)
    → find_route (method <> (" " <> (prefix <> "{ref}"))) routes ≡ some route
    → is_plain ref ≡ true
    → ref ≢ ""
    → serve routes
        (record {
          method = method;
          target = base <> (prefix <> ref);
          content_type = content_type;
          body = body;
        })
        s
      ≡ route (asked ref body) s

module _ (libs : Libs) (quote : String → String) (cfg : ApiConfig) (env : Env) (base : String)
    (encode : ApiBody → List ℕ) (serve : Serve (Observed Database)) where
  -- The reply of the REST API, as the gateway passes it on.
  abbrev pub passed_on : Reply × Observed Database → Response × Observed Database
  passed_on (reply, o) = (
    record {
      status = reply.status;
      content_type = "application/json";
      body = raw_body (encode reply.body);
    },
    o,
  )

  -- The gateway's client, with this server for the REST API.
  abbrev pub rest : RestClient (Observed Database)
  rest = record {
    base_url = base;
    is_target = λ _. true;
    send = λ u o.
        let (reply, o') = serve (register_routes libs quote cfg env) u o in
        (
          some (record {
            status = reply.status;
            content_type = "application/json";
            body = encode reply.body;
          }),
          o',
        );
  }

  -- A request for a plain reference, without a query.
  abbrev pub plain_request : Request → (method ref : String) → Request
  plain_request req method ref = record req {
    method = method;
    path_value = λ _. ref;
    raw_query = "";
  }

  -- The three routes with a reference, called through the gateway, do and answer just what the
  -- handlers of the REST API do and answer when they are called with the reference and the body, and
  -- are counted there; for a reference of letters, digits, - and _, and no query.
  pub proxies_pass :
      (req : Request) (ref : String) (o : Observed Database)
      → IsDispatched serve base (register_routes libs quote cfg env) "POST" "/v1/resolve/auto/"
      → IsDispatched serve base (register_routes libs quote cfg env) "POST" "/v1/resolve/retry/"
      → IsDispatched serve base (register_routes libs quote cfg env) "GET" "/v1/resolve/audit/"
      → is_plain ref ≡ true
      → ref ≢ ""
      → (auto_resolve_proxy rest (plain_request req "POST" ref) o
          ≡ passed_on (
              wrap "POST" "/v1/resolve/auto/{ref}"
                (auto_resolve_route libs quote cfg env)
                (asked ref req.body)
                o))
        × (retry_proxy rest (plain_request req "POST" ref) o
            ≡ passed_on (
                wrap "POST" "/v1/resolve/retry/{ref}"
                  (enqueue_retry_route libs quote cfg env)
                  (asked ref req.body)
                  o))
        × (audit_proxy rest (plain_request req "GET" ref) o
            ≡ passed_on (
                wrap "GET" "/v1/resolve/audit/{ref}"
                  (get_audit_trail_route libs quote cfg env)
                  (asked ref req.body)
                  o))
  unfolding auto_resolve_proxy retry_proxy audit_proxy proxy_to_resolution target_url
  proxies_pass req ref o auto retry audit plain filled = (
    rw (
      ==-false ref "" filled,
      auto ref (wrap "POST" "/v1/resolve/auto/{ref}" (auto_resolve_route libs quote cfg env))
          (req.headers "Content-Type") req.body o (unfold register_routes in refl) plain filled,
    ),
    rw (
      ==-false ref "" filled,
      retry ref (wrap "POST" "/v1/resolve/retry/{ref}" (enqueue_retry_route libs quote cfg env))
          (req.headers "Content-Type") req.body o (unfold register_routes in refl) plain filled,
    ),
    rw (
      ==-false ref "" filled,
      audit ref (wrap "GET" "/v1/resolve/audit/{ref}" (get_audit_trail_route libs quote cfg env))
          (req.headers "Content-Type") req.body o (unfold register_routes in refl) plain filled,
    ),
  )
