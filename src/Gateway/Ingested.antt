-- ===== src/Gateway/Ingested.antt =====
-- handlers.go, submitRecord, with services/ingestion behind it: what a client of the gateway learns of a
-- record. The text that goes with an error's code is a parameter.
use reconx.Base.{ℕ, String, true, ◌≡◌, refl, subst, inl, inr, some, Bool-cases, Option-cases}
use reconx.Base.Exec.{Result, ok, err, Exec, renamed, Result-cases}
use reconx.Base.Table.{find}
use reconx.Proto.{Code}
use reconx.Ingestion.Pipeline.{NormalizedRecord, Libs, StageError, ingestion_pipeline}
use reconx.Ingestion.Pipeline.Kept.{pipeline-Keeps}
use reconx.Ingestion.Stores.{
  record_key, Tables, Env, get_response, insert_record, StoreError, set_response,
}
use reconx.Ingestion.Server.{
  IngestRequest, IngestResponse, submit_record, process, on_processed, on_stored, proto_to_record,
  source_of, stored,
}
use reconx.Ingestion.Server.Accounted.{IsStored, insert_record-ok}
use reconx.Ingestion.Server.Grows.{IsBacked}
use reconx.Ingestion.Server.Drained.{live-found}
use reconx.Gateway.Http.{Request, RpcError, status_error, ingest_body}
use reconx.Gateway.Handlers.{Clients, IngestRequestBody, ingest_request, reply}
use reconx.Gateway.Handlers as G

module _ {D : Type 0} (libs : Libs D) (ttl : ℕ) where
  on_stored_success :
      (env : Env) (req : IngestRequest) (rec : NormalizedRecord D) (result : Result StoreError Unit)
      (tables : Tables) {resp : IngestResponse}
      → (result ≡ ok tt → IsStored req tables)
      → (on_stored libs ttl env req rec result tables).0 ≡ ok resp
      → IsStored req (on_stored libs ttl env req rec result tables).1
  unfolding set_response
  on_stored_success env req rec (ok _) tables found e = found refl
  on_stored_success env req rec (err x) tables found e = cc

  on_processed_success :
      (env : Env) (req : IngestRequest) (result : Result StageError Unit) (rec : NormalizedRecord D)
      (tables : Tables) {resp : IngestResponse}
      → rec.idempotency_key ≡ req.idempotency_key
      → (on_processed libs ttl env req result rec tables).0 ≡ ok resp
      → resp.success ≡ true
      → IsStored req (on_processed libs ttl env req result rec tables).1
  on_processed_success env req (ok _) rec tables same e done =
      let inserted = (insert_record env (stored libs rec) tables).1 in
      on_stored_success env req rec (insert_record env (stored libs rec) tables).0 inserted
        (λ i.
          let (r, f) = insert_record-ok libs ttl env (stored libs rec) tables i in
          (r, subst (λ k. find record_key k inserted.records ≡ some r) same f))
        e
  on_processed_success env req (err x) rec tables same e done = cc

  -- A response with success is given only for a key that has a record.
  submit_record_success :
      (env : Env) (req : IngestRequest) (tables : Tables) {resp : IngestResponse}
      → IsBacked tables
      → (submit_record libs ttl env req tables).0 ≡ ok resp
      → resp.success ≡ true
      → IsStored req (submit_record libs ttl env req tables).1
  unfolding submit_record process
  submit_record_success env req tables backed e done =
      elim (Bool-cases (env.allow (source_of req.metadata))) [
        | inr q ↦ absurd (let k = rw q at e in cc)
        | inl q ↦ elim (Result-cases (get_response env req.idempotency_key tables).0) [
          | inl (c, r) ↦
              let (a, f) = live-found env req.idempotency_key tables c r in
              rw (q, r) (backed req.idempotency_key a f)
          | inr (x, r) ↦
              let (_, same_key, _, _, _, _) =
                pipeline-Keeps libs env.now (proto_to_record libs env req) in
              rw (q, r)
                (on_processed_success env req
                  (ingestion_pipeline libs env.now (proto_to_record libs env req)).0
                  (ingestion_pipeline libs env.now (proto_to_record libs env req)).1 tables
                  (unfold proto_to_record in same_key) (rw (q, r) at e) done)
        ]
      ]

  -- The call of the ingestion server, as a client sees it.
  unfoldable pub ingest_call :
      (Code → String) → Env → IngestRequest → Exec Tables RpcError IngestResponse
  ingest_call message env req tables =
      let (result, tables') = submit_record libs ttl env req tables in
      (renamed (λ c. status_error c (message c)) result, tables')

  abbrev pub ingesting : (Code → String) → Env → Clients Tables → Clients Tables
  ingesting message env others = record others { submit_record = ingest_call message env }

  -- Where the gateway reports success for a record, its body decodes and the record's key is in the
  -- table of records; each reply that was cached before stands for a stored record.
  pub ingest-IsStored :
      (calls : G.Libs) (message : Code → String) (env : Env) (others : Clients Tables)
      (req : Request) (tables : Tables) (internal_id : String)
      → IsBacked tables
      → (G.submit_record calls (ingesting message env others) req tables).0.body
        ≡ ingest_body internal_id true
      → (body : IngestRequestBody) × (calls.decode_ingest req.body ≡ some body)
        × IsStored
            (ingest_request body)
            (G.submit_record calls (ingesting message env others) req tables).1
  unfolding G.submit_record reply ingest_call
  ingest-IsStored calls message env others req tables internal_id backed e =
      elim (Option-cases (calls.decode_ingest req.body)) [
        | inl b ↦ absurd (let k = rw (b, G.submit_record) at e in cc)
        | inr (body, b) ↦
            elim (Result-cases (submit_record libs ttl env (ingest_request body) tables).0) [
              | inr (c, r) ↦ absurd (let k = rw (b, G.submit_record, r) at e in cc)
              | inl (resp, r) ↦
                  let k : ingest_body resp.internal_id resp.success ≡ ingest_body internal_id true =
                    rw (b, G.submit_record, r) at e in
                  let done : resp.success ≡ true = cc in
                  (
                    body,
                    b,
                    rw (b, G.submit_record, r)
                        (submit_record_success env (ingest_request body) tables backed r done),
                  )
            ]
      ]
