-- ===== src/Gateway/Examples.antt =====
-- The theorems on the gateway, at concrete requests.
mod Passing
use reconx.Base.{
  Bool, String, true, ◌≡◌, refl, ◌↔◌, ◌⊎◌, Option, some, none, [], ◌∷◌, ◌==◌, if◌then◌else◌,
}
use reconx.Base.Exec.{err}
use reconx.Base.Int.{pos}
use reconx.Base.Table.{find}
use reconx.Base.Order.{sort}
use reconx.Proto.{StateResponse, unavailable}
use reconx.Resolution.Tables.{Database, Env}
use reconx.Resolution.Manual as M
use reconx.Resolution.Manual.Outcome.{IsAccepted}
use reconx.Resolution.Examples.{env, db}
use Prim.Native.String.{◌++◌ as ◌<>◌}
use reconx.Gateway.Proxy.{RestClient, auto_resolve_proxy}
use reconx.Gateway.Forwarded.{asking, auto_resolve_proxy_confuses}
use text.Mathlib.Text.{starts_with}
use reconx.Base.{List, none, ◌≢◌}
use reconx.Base.Counter.{inc}
use reconx.Gateway.Routes.{IsAdmitted, api_handler, api_handler_counts}
use reconx.Gateway.Auth.{unauthorized}
use reconx.Gateway.Http.{Request, Handler, status_error, StateJson}
use reconx.Gateway.Handlers.{
  Libs, Clients, ResolveRequestBody, resolve_manually, list_mismatches, resolution_request,
}
use reconx.Gateway.Handlers.{IngestRequestBody, ingest_request, submit_record}
use reconx.Gateway.Ingested.{ingest_call, ingesting, ingest-IsStored}
use reconx.Ingestion.Examples as I
use reconx.Ingestion.Pipeline.{ingestion_pipeline, matches_tx_ref}
use reconx.Ingestion.Server as S
use reconx.Ingestion.Server.{proto_to_record}
use reconx.Ingestion.Server.Accounted.{IsStored}
use reconx.Ingestion.Server.Grows.{IsBacked}
use reconx.Ingestion.Stores.{Tables}
use reconx.Gateway.Settled.{wired, settle_iff}
use reconx.Resolution.Queries.Retries.{page_size_of}
use reconx.Resolution.Queries.Mismatches.{attach_details}
use reconx.Base.Int.{int32}
use reconx.Gateway.Listed.{list_call, IsPart, list_mismatches-IsPart}
use reconx.Resolution.Examples.Paging.{
  text_env, three, three-IsDistinct, text_less, text_less-IsLinear,
}

abbrev body : ResolveRequestBody
body = record { chosen_source = "bank"; resolution_reason = "checked"; resolver_id = "alice" }

abbrev record_body : IngestRequestBody
record_body = record {
  idempotency_key = "k1";
  transaction_ref = "T1";
  payload = 123 ∷ 125 ∷ [];
  source_system = "erp";
  trace_id = "";
  tags = [];
}

abbrev pub libs : Libs
libs = record {
  decode_ingest = λ _. some record_body;
  decode_resolve = λ _. some body;
  query_get = λ _ k. if k == "page_size" then "2" else "";
  atoi = λ s. if s == "2" then pos 2 else pos 0;
  status_number = λ _. "5";
}

abbrev pub others : Clients Database
others = record {
  submit_record = λ _ s. (err (status_error unavailable ""), s);
  get_recon_state = λ _ s. (err (status_error unavailable ""), s);
  retrigger_match = λ _ s. (err (status_error unavailable ""), s);
  resolve_manually = λ _ s. (err (status_error unavailable ""), s);
  list_mismatches = λ _ s. (err (status_error unavailable ""), s);
}

abbrev pub post : Request
post = record {
  method = "POST";
  path = "/v1/resolution/T1";
  raw_query = "";
  headers = λ k. if k == "X-API-Key" then "secret" else "";
  path_value = λ k. if k == "transaction_ref" then "T1" else "";
  body = 123 ∷ 125 ∷ [];
}

abbrev settle : Handler Database
settle = resolve_manually libs (wired (λ _. "") env others)

abbrev broken_env : Env
broken_env = record env { fails = λ _. true }

settle_iff_example :
    ((resolve_manually libs (wired (λ _. "") env others) post db).0.status ≡ 200) ↔ (
      (b : ResolveRequestBody) × (Path (Option ResolveRequestBody) (some body) (some b))
      × IsAccepted env (resolution_request "T1" b) db)
settle_iff_example = settle_iff libs (λ _. "") env others post db

abbrev get_page : Request
get_page = record post { method = "GET"; path = "/v1/resolution/mismatches"; path_value = λ _. "" }

abbrev at_t3 : StateResponse → Bool
at_t3 m = m.transaction_ref == "T3"

abbrev item : String → StateJson
item ref = record {
  transaction_ref = ref;
  status = "MISMATCHED";
  details = [];
  last_updated_ms = 0;
}

list_mismatches-IsPart_example : IsPart text_env three "" "" (item "T1" ∷ []) "T1"
unfolding list_mismatches list_call text_less sort page_size_of attach_details int32
list_mismatches-IsPart_example =
    list_mismatches-IsPart libs (λ _. status_error unavailable "") text_env text_less-IsLinear at_t3
      others get_page three three-IsDistinct ((λ e. cc), ((λ e. cc), ((λ e. cc), tt)))
      (item "T1" ∷ []) "T1" refl

abbrev no_service : Clients Tables
no_service = record {
  submit_record = λ _ s. (err (status_error unavailable ""), s);
  get_recon_state = λ _ s. (err (status_error unavailable ""), s);
  retrigger_match = λ _ s. (err (status_error unavailable ""), s);
  resolve_manually = λ _ s. (err (status_error unavailable ""), s);
  list_mismatches = λ _ s. (err (status_error unavailable ""), s);
}

no_reply : IsBacked I.empty
unfolding find
no_reply k a e = absurd cc

ingest-IsStored_example :
    (b : IngestRequestBody) × (Path (Option IngestRequestBody) (some record_body) (some b))
    × IsStored
        (ingest_request b)
        (submit_record libs (ingesting I.libs 10 (λ _. "") I.env no_service) post I.empty).1
unfolding submit_record S.submit_record ingest_call ingestion_pipeline proto_to_record
    matches_tx_ref
ingest-IsStored_example =
    ingest-IsStored I.libs 10 libs (λ _. "") I.env no_service post I.empty "id-1" no_reply
      (unfold find in refl)

abbrev rest_client : RestClient Tables
rest_client = record {
  base_url = "http://resolution:8082";
  is_target = λ _. true;
  send = λ _ s. (none, s);
}

auto_resolve_proxy_confuses_example :
    auto_resolve_proxy rest_client (asking post ("A" <> ("?" <> "x")) "") I.empty
    ≡ auto_resolve_proxy rest_client (asking post "A" "x") I.empty
auto_resolve_proxy_confuses_example =
    auto_resolve_proxy_confuses rest_client post "A" "x" I.empty (λ e. cc) (λ e. cc)

-- A multiplexer that answers every request alike.
abbrev answered : List (String × Handler Tables) → Handler Tables
answered routes req s = (unauthorized, s)

api_handler_counts_example :
    ((starts_with post.path "/v1/" ≡ true)
      × (◌≢◌ {A = String} "secret" "")
      × (post.headers "X-API-Key" ≢ "secret")
      × (api_handler libs no_service rest_client
            (λ _. none)
            answered
            "secret"
            post
            (record { state = I.empty; http_requests_total = λ _ _ _. 0 })
          ≡ (unauthorized, record { state = I.empty; http_requests_total = λ _ _ _. 0 })))
    ⊎ (IsAdmitted "secret" post
        × (api_handler libs no_service rest_client
              (λ _. none)
              answered
              "secret"
              post
              (record { state = I.empty; http_requests_total = λ _ _ _. 0 })
            ≡ (
              unauthorized,
              record {
                state = I.empty;
                http_requests_total = inc "POST" "/v1/resolution/T1" 401 (λ _ _ _. 0);
              },
            )))
api_handler_counts_example =
    api_handler_counts libs no_service rest_client (λ _. none) answered "secret" post
      (record { state = I.empty; http_requests_total = λ _ _ _. 0 })
