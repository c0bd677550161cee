-- ===== src/Gateway/Routes.antt =====
-- services/gateway: the table of routes and the counter around them (internal/handlers/handlers.go,
-- New and instrument), and the server that cmd/main.go puts behind the API key. net/http's multiplexer
-- is a parameter; the histogram of durations is left out.
use text.Mathlib.Text.{starts_with}
use reconx.Base.{
  refl, ℕ, String, Option, List, [], ◌∷◌, ◌≡◌, ◌≢◌, ◌⊎◌, inl, inr, true, false, eq_iff, ◌==◌,
  Bool-cases,
}
use reconx.Base.Counter.{Observed, inc}
use reconx.Gateway.Http.{Handler, Request}
use reconx.Gateway.Auth.{api_key_auth, unauthorized}
use reconx.Gateway.Handlers.{
  Libs, Clients, submit_record, get_recon_state, retrigger_match, resolve_manually, list_mismatches,
}
use reconx.Gateway.Proxy.{
  RestClient, auto_resolve_proxy, retry_proxy, audit_proxy, retry_queue_proxy, health,
}

-- The path is the request's own, not the route's pattern.
unfoldable pub instrument : {S : Type 0} → Handler S → Handler (Observed S)
unfolding inc
instrument next req o =
    let (resp, s) = next req o.state in
    (
      resp,
      record {
        state = s;
        http_requests_total = inc req.method req.path resp.status o.http_requests_total;
      },
    )

differs : (a b : String) → (a == b) ≡ false → a ≢ b
differs a b e same = absurd (let t = (eq_iff a b).1 same in cc)

-- The request needs no key, or carries it.
abbrev pub IsAdmitted : String → Request → Type 0
IsAdmitted key req =
    (starts_with req.path "/v1/" ≡ false) ⊎ (key ≡ "") ⊎ (req.headers "X-API-Key" ≡ key)

module _ {S : Type 0} (libs : Libs) (clients : Clients S) (rest : RestClient S)
    (get : String → Option ℕ) where
  unfoldable pub routes : List (String × Handler S)
  routes =
      ("POST /v1/ingest", submit_record libs clients)
      ∷ ("GET /v1/recon/{transaction_ref}", get_recon_state libs clients)
      ∷ ("POST /v1/recon/{transaction_ref}/retrigger", retrigger_match libs clients)
      ∷ ("POST /v1/resolution/{transaction_ref}", resolve_manually libs clients)
      ∷ ("GET /v1/resolution/mismatches", list_mismatches libs clients)
      ∷ ("GET /v1/resolution/retry-queue", retry_queue_proxy rest)
      ∷ ("POST /v1/resolution/{ref}/auto", auto_resolve_proxy rest)
      ∷ ("POST /v1/resolution/{ref}/retry", retry_proxy rest)
      ∷ ("GET /v1/resolution/{ref}/audit", audit_proxy rest)
      ∷ ("GET /health", health get)
      ∷ []

  module _ (mux : List (String × Handler S) → Handler S) where
    -- New
    unfoldable pub new : Handler (Observed S)
    unfolding routes instrument
    new = instrument (mux routes)

    unfoldable pub api_handler : String → Handler (Observed S)
    unfolding new api_key_auth
    api_handler key = api_key_auth key new

    -- A request under /v1/ that does not carry the configured key is turned away, and leaves no trace,
    -- not even in the counter. Every other request is served by the multiplexer, and is counted once,
    -- by its own path and the status of its answer.
    pub api_handler_counts :
        (key : String) (req : Request) (o : Observed S)
        → ((starts_with req.path "/v1/" ≡ true)
            × (key ≢ "")
            × (req.headers "X-API-Key" ≢ key)
            × (api_handler key req o ≡ (unauthorized, o)))
          ⊎ (IsAdmitted key req
              × (api_handler key req o ≡ (
                (mux routes req o.state).0,
                record {
                  state = (mux routes req o.state).1;
                  http_requests_total =
                      inc req.method req.path
                        (mux routes req o.state).0.status
                        o.http_requests_total;
                },
              )))
    unfolding api_handler
    api_handler_counts key req o = elim (Bool-cases (req.path == "/health")) [
      | inl h ↦ inr (inl (rw ((eq_iff req.path "/health").0 h) refl), rw h)
      | inr h ↦ elim (Bool-cases (starts_with req.path "/v1/")) [
        | inr u ↦ inr (inl u, rw (h, u))
        | inl u ↦ elim (Bool-cases (key == "")) [
          | inl k ↦ inr (inr (inl ((eq_iff key "").0 k)), rw (h, u, k))
          | inr k ↦ elim (Bool-cases (req.headers "X-API-Key" == key)) [
            | inl e ↦ inr (inr (inr ((eq_iff (req.headers "X-API-Key") key).0 e)), rw (h, u, k, e))
            | inr e ↦
                inl (u, differs key "" k, differs (req.headers "X-API-Key") key e, rw (h, u, k, e))
          ]
        ]
      ]
    ]
