-- ===== src/Gateway/Handlers.antt =====
-- services/gateway/internal/handlers/handlers.go: the five handlers that call a gRPC server. Log lines
-- and metrics are left out, as is the field ingested_at that no service reads.
use reconx.Base.{
  ℕ, String, Bool, Option, none, some, List, [], ◌∷◌, ◌==◌, if◌then◌else◌, map, last?,
}
use reconx.Base.Exec.{Result, ok, err, Exec}
use reconx.Base.Int.{ℤ, int32}
use reconx.Base.Text.{trim_prefix}
use reconx.Proto.{
  ReconStatus, status_unspecified, pending, matched, mismatched, resolved, unrecognized,
  MatchDetail, StateResponse,
}
use reconx.Ingestion.Pipeline.{Tags}
use reconx.Ingestion.Server.{IngestRequest, IngestResponse}
use reconx.Resolution.Manual.{ResolutionRequest, ResolutionResponse, FilterRequest}
use reconx.Gateway.Http.{
  Request, Response, Handler, StateJson, ingest_body, state_body, resolve_body, page_body,
  write_json, write_error, RpcError, grpc_to_http, grpc_message,
}

pub record IngestRequestBody : Type 0 where
  pub idempotency_key : String
  pub transaction_ref : String
  pub payload : List ℕ
  pub source_system : String
  pub trace_id : String
  pub tags : Tags

pub record ResolveRequestBody : Type 0 where
  pub chosen_source : String
  pub resolution_reason : String
  pub resolver_id : String

-- What the handlers call of Go's libraries: json.Decode into the two bodies, url.Values.Get on a raw
-- query, the number that strconv.Atoi returns (also beside an error), and protobuf's text of a status
-- without a name.
pub record Libs : Type 0 where
  pub decode_ingest : List ℕ → Option IngestRequestBody
  pub decode_resolve : List ℕ → Option ResolveRequestBody
  pub query_get : String → String → String
  pub atoi : String → ℤ
  pub status_number : ℕ → String

-- What successive calls of Recv return: the messages, then EOF or an error.
pub record MismatchStream : Type 0 where
  pub messages : List StateResponse
  pub error : Option RpcError

-- The servers behind the gateway, over what they keep.
pub record Clients (S : Type 0) : Type 0 where
  pub submit_record : IngestRequest → Exec S RpcError IngestResponse
  pub get_recon_state : String → Exec S RpcError StateResponse
  pub retrigger_match : String → Exec S RpcError StateResponse
  pub resolve_manually : ResolutionRequest → Exec S RpcError ResolutionResponse
  pub list_mismatches : FilterRequest → Exec S RpcError MismatchStream

unfoldable pub status_string : Libs → ReconStatus → String
status_string libs status_unspecified = "STATUS_UNSPECIFIED"
status_string libs pending = "PENDING"
status_string libs matched = "MATCHED"
status_string libs mismatched = "MISMATCHED"
status_string libs resolved = "RESOLVED"
status_string libs (unrecognized n) = libs.status_number n

abbrev pub detail_json : MatchDetail → String × Bool
detail_json d = (d.system_name, d.discrepancy_found)

unfoldable pub state_response_json : Libs → StateResponse → StateJson
unfolding status_string trim_prefix
state_response_json libs resp = record {
  transaction_ref = resp.transaction_ref;
  status = trim_prefix (status_string libs resp.status) "STATUS_";
  details = map detail_json resp.details;
  last_updated_ms = resp.last_updated;
}

-- The answer to a call: the error's code and message, or what the handler makes of the response.
unfoldable pub reply : {S A : Type 0} → (A → Response) → Result RpcError A × S → Response × S
unfolding write_error grpc_to_http grpc_message
reply f (ok a, s) = (f a, s)
reply f (err e, s) = (write_error (grpc_to_http e) (grpc_message e), s)

abbrev pub ingest_request : IngestRequestBody → IngestRequest
ingest_request body = record {
  idempotency_key = body.idempotency_key;
  transaction_ref = body.transaction_ref;
  payload = body.payload;
  metadata =
      some
        (record { source_system = body.source_system; trace_id = body.trace_id; tags = body.tags });
}

abbrev pub resolution_request : String → ResolveRequestBody → ResolutionRequest
resolution_request tx_ref body = record {
  transaction_ref = tx_ref;
  chosen_source = body.chosen_source;
  resolution_reason = body.resolution_reason;
  resolver_id = body.resolver_id;
}

-- `last["transaction_ref"]` of the batch.
abbrev pub next_token : Option StateJson → String
next_token none = ""
next_token (some item) = item.transaction_ref

unfoldable pub write_page : List StateJson → Response
unfolding write_json
write_page items = write_json 200 (page_body items (next_token (last? items)))

abbrev pub on_end : List StateJson → Option RpcError → Response
on_end [] (some e) = write_error 500 "stream error"
on_end [] none = write_page []
on_end (item ∷ items) _ = write_page (item ∷ items)

-- What the loop of Recv leaves: an error counts only before the first message.
unfoldable pub buffered : Libs → MismatchStream → Response
unfolding state_response_json write_page write_error
buffered libs stream = on_end (map (state_response_json libs) stream.messages) stream.error

unfoldable pub filter_request : Libs → Request → FilterRequest
unfolding int32
filter_request libs req = record {
  page_size = int32 (libs.atoi (libs.query_get req.raw_query "page_size"));
  page_token = libs.query_get req.raw_query "page_token";
  source_filter = libs.query_get req.raw_query "source_filter";
}

module _ {S : Type 0} (libs : Libs) (clients : Clients S) where
  unfoldable pub submit_record : Handler S
  unfolding reply write_error
  submit_record req s = elim (libs.decode_ingest req.body) [
    | none ↦ (write_error 400 "invalid JSON body", s)
    | some body ↦
        reply (λ resp. write_json 202 (ingest_body resp.internal_id resp.success))
          (clients.submit_record (ingest_request body) s)
  ]

  abbrev pub write_state : StateResponse → Response
  write_state resp = write_json 200 (state_body (state_response_json libs resp))

  unfoldable pub get_recon_state : Handler S
  unfolding reply write_error state_response_json
  get_recon_state req s =
      let tx_ref = req.path_value "transaction_ref" in
      if tx_ref == ""
      then (write_error 400 "transaction_ref is required", s)
      else reply write_state (clients.get_recon_state tx_ref s)

  unfoldable pub retrigger_match : Handler S
  unfolding reply write_error state_response_json
  retrigger_match req s =
      let tx_ref = req.path_value "transaction_ref" in
      if tx_ref == ""
      then (write_error 400 "transaction_ref is required", s)
      else reply write_state (clients.retrigger_match tx_ref s)

  abbrev pub write_resolution : ResolutionResponse → Response
  write_resolution resp =
      write_json 200 (resolve_body resp.success (status_string libs resp.new_status))

  unfoldable pub resolve_manually : Handler S
  unfolding reply write_error
  resolve_manually req s =
      let tx_ref = req.path_value "transaction_ref" in
      if tx_ref == ""
      then (write_error 400 "transaction_ref is required", s)
      else elim (libs.decode_resolve req.body) [
        | none ↦ (write_error 400 "invalid JSON body", s)
        | some body ↦
            reply write_resolution (clients.resolve_manually (resolution_request tx_ref body) s)
      ]

  unfoldable pub list_mismatches : Handler S
  unfolding reply buffered filter_request
  list_mismatches req s =
      reply (buffered libs) (clients.list_mismatches (filter_request libs req) s)
