-- ===== src/Ingestion/Server/Accounted.antt =====
-- server.go, SubmitRecord: where a request ends up, and what the counts of a bulk stream say.
use reconx.Base.{
  subst, ℕ, ◌+◌, ◌%◌, ◌^◌, true, false, ◌≡◌, refl, ◌⊎◌, inl, inr, some, List, [], ◌∷◌, ◌++◌, arith,
  if◌then◌else◌, Bool-cases, Option-cases, length, ◌∙◌,
}
use reconx.Base.Exec.{Result, ok, err}
use reconx.Base.Table.{find}
use reconx.Proto.{Code}
use reconx.Ingestion.Pipeline.{NormalizedRecord, Libs, StageError, ingestion_pipeline}
use reconx.Ingestion.Pipeline.Kept.{pipeline-Keeps}
use reconx.Ingestion.Stores.{
  record_key, Record, Entry, Tables, Env, insert_record, set_response, enqueue, get_response,
  StoreError, violates, Call,
}
use reconx.Ingestion.Stores.Fresh.{find-insert_new}
use reconx.Ingestion.Server.{
  IngestRequest, IngestResponse, submit_record, process, on_processed, on_stored, proto_to_record,
  source_of, stored, dead_letter, BulkSummary, bulk_loop, bulk_stream_ingest, counted,
}

-- A record of the table has the request's key.
abbrev pub IsStored : IngestRequest → Tables → Type 0
IsStored req tables = (r : Record) × (find record_key req.idempotency_key tables.records ≡ some r)

-- The dead letter queue has a new entry, with the request's key, source and bytes.
abbrev pub IsDeadLetter : IngestRequest → (before after : Tables) → Type 0
IsDeadLetter req before after =
    (e : Entry) × (after.dlq ≡ before.dlq ++ e ∷ [])
    × (e.idempotency_key ≡ req.idempotency_key)
    × (e.source_system ≡ source_of req.metadata)
    × (e.raw_payload ≡ req.payload)

module _ {D : Type 0} (libs : Libs D) (ttl : ℕ) where
  pub insert_record-ok :
      (env : Env) (r : Record) (tables : Tables)
      → (insert_record env r tables).0 ≡ ok tt
      → (a : Record) × (find record_key r.idempotency_key (insert_record env r tables).1.records
          ≡ some a)
  unfolding insert_record
  insert_record-ok env r tables e =
      elim (Bool-cases (if env.fails Call.insert then true else violates r tables)) [
        | inl q ↦ absurd (let k = rw q at e in cc)
        | inr q ↦ elim (Option-cases (find record_key r.idempotency_key tables.records)) [
          | inl new ↦ (r, rw q (find-insert_new record_key r tables.records new))
          | inr (old, found) ↦ (old, rw q (rw found found))
        ]
      ]

  -- A record that has been through the pipeline is of the request.
  abbrev IsOf : IngestRequest → NormalizedRecord D → Type 0
  IsOf req rec =
      (rec.idempotency_key ≡ req.idempotency_key)
      × (rec.source_system ≡ source_of req.metadata)
      × (rec.raw_payload ≡ req.payload)

  abbrev IsAccounted : IngestRequest → (before after : Tables) → Type 0
  IsAccounted req before after = IsStored req after ⊎ IsDeadLetter req before after

  on_stored-IsAccounted :
      (env : Env) (req : IngestRequest) (rec : NormalizedRecord D) (before : Tables)
      (result : Result StoreError Unit) (tables : Tables)
      → env.fails Call.add_entry ≡ false
      → IsOf req rec
      → tables.dlq ≡ before.dlq
      → (result ≡ ok tt → IsStored req tables)
      → IsAccounted req before (on_stored libs ttl env req rec result tables).1
  unfolding set_response enqueue
  on_stored-IsAccounted env req rec before (ok _) tables works same kept st = inl (st refl)
  on_stored-IsAccounted env req rec before (err _) tables works (k, s, b) kept st =
      inr (dead_letter env rec "storage" "db_error", rw works (rw kept), k, s, b)

  on_processed-IsAccounted :
      (env : Env) (req : IngestRequest) (result : Result StageError Unit) (rec : NormalizedRecord D)
      (tables : Tables)
      → env.fails Call.add_entry ≡ false
      → IsOf req rec
      → IsAccounted req tables (on_processed libs ttl env req result rec tables).1
  unfolding enqueue
  on_processed-IsAccounted env req (ok _) rec tables works same =
      on_stored-IsAccounted env req rec tables (insert_record env (stored libs rec) tables).0
        (insert_record env (stored libs rec) tables).1 works same (unfold insert_record in refl)
        λ e.
          let (a, found) = insert_record-ok env (stored libs rec) tables e in
          (
            a,
            subst
                (λ k.
                  find record_key k (insert_record env (stored libs rec) tables).1.records ≡ some a)
                same.0 found,
          )
  on_processed-IsAccounted env req (err e) rec tables works (k, s, b) =
      inr (dead_letter env rec e.stage e.reason, rw works, k, s, b)

  -- A request that the rate limiter lets through and that has no cached reply is never lost where the
  -- dead letter queue can be written: a record with its key is in the table, or the queue has a new
  -- entry with its key, source and bytes.
  pub submit_record-accounted :
      (env : Env) (req : IngestRequest) (tables : Tables) (e : StoreError)
      → env.allow (source_of req.metadata) ≡ true
      → (get_response env req.idempotency_key tables).0 ≡ err e
      → env.fails Call.add_entry ≡ false
      → IsStored req (submit_record libs ttl env req tables).1
        ⊎ IsDeadLetter req tables (submit_record libs ttl env req tables).1
  unfolding submit_record process
  submit_record-accounted env req tables e allowed new works =
      let (same_id, same_key, same_source, same_adapter, same_payload, same_ref) =
        pipeline-Keeps libs env.now (proto_to_record libs env req) in
      rw (allowed, new)
        (on_processed-IsAccounted env req
          (ingestion_pipeline libs env.now (proto_to_record libs env req)).0
          (ingestion_pipeline libs env.now (proto_to_record libs env req)).1 tables works
          (unfold proto_to_record in (same_key, same_source, same_payload)))

  count_lem :
      (reqs : List (Env × IngestRequest)) (s : BulkSummary) (tables : Tables) (n : ℕ)
      → (s.total_processed + s.total_failed) % 2 ^ 32 ≡ n % 2 ^ 32
      → ((bulk_loop libs ttl reqs s tables).0.total_processed
            + (bulk_loop libs ttl reqs s tables).0.total_failed)
          % 2 ^ 32
        ≡ (n + length reqs) % 2 ^ 32
  unfolding bulk_loop
  count_lem [] s tables n e = omega (arith, e)
  count_lem ((env, req) ∷ rest) s tables n e =
      count_lem rest (counted (submit_record libs ttl env req tables).0 s)
        (submit_record libs ttl env req tables).1 (n + 1)
        (counted_lem (submit_record libs ttl env req tables).0)
      ∙ omega arith
    where
      counted_lem :
          (r : Result Code IngestResponse)
          → ((counted r s).total_processed + (counted r s).total_failed) % 2 ^ 32 ≡ (n + 1) % 2 ^ 32
      counted_lem (err c) = omega (arith, e)
      counted_lem (ok resp) = elim (Bool-cases resp.success) [
        | inl b ↦ rw b (omega (arith, e))
        | inr b ↦ rw b (omega (arith, e))
      ]

  -- The two counts of a bulk stream's summary add up to the number of its requests, as int32 counts
  -- it: each request is counted once.
  bulk_stream_ingest-counts :
      (reqs : List (Env × IngestRequest)) (tables : Tables)
      → ((bulk_stream_ingest libs ttl reqs tables).0.total_processed
            + (bulk_stream_ingest libs ttl reqs tables).0.total_failed)
          % 2 ^ 32
        ≡ length reqs % 2 ^ 32
  unfolding bulk_stream_ingest
  bulk_stream_ingest-counts reqs tables = count_lem reqs _ tables 0 (omega arith) ∙ omega arith
