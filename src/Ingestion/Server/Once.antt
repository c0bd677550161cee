-- ===== src/Ingestion/Server/Once.antt =====
-- server.go, SubmitRecord: what resubmission of an idempotency key does, before and after its cached
-- reply expires.
use reconx.Base.{
  All, List, ℕ, ◌+◌, ◌<◌, String, true, false, ◌≡◌, refl, none, some, Bool-cases, inl, inr, lt→ltb,
}
use reconx.Base.Exec.{Result, ok, err}
use reconx.Base.Table.{find}
use reconx.Ingestion.Pipeline.{NormalizedRecord, Libs, StageError, ingestion_pipeline}
use reconx.Ingestion.Pipeline.Kept.{pipeline-Keeps}
use reconx.Ingestion.Stores.{
  idempotency_key, record_key, IdempotencyRow, Record, Tables, Env, insert_record, set_response,
  enqueue, get_response, StoreError, Call,
}
use reconx.Ingestion.Stores.Fresh.{find-insert_new}
use reconx.Ingestion.Server.Between.{Event, IsEarly, happen, happen-stays}
use reconx.Ingestion.Server.{
  IngestRequest, IngestResponse, submit_record, process, on_processed, on_stored, proto_to_record,
  source_of, stored, cached_success, accepted,
}

-- The row that caches the reply with an id.
abbrev pub reply_row : Env → ℕ → IngestRequest → String → IdempotencyRow
reply_row env ttl req id = record {
  idempotency_key = req.idempotency_key;
  response = cached_success env id;
  source_system = source_of req.metadata;
  expires_at = env.now + ttl;
}

module _ {D : Type 0} (libs : Libs D) (ttl : ℕ) where
  -- A success of a request that was processed: its reply, and what is cached.
  abbrev IsCached : Env → IngestRequest → String → IngestResponse → Tables → Type 0
  IsCached env req id resp tables =
      (resp ≡ accepted id)
      × (find idempotency_key req.idempotency_key tables.idempotency
          ≡ some (reply_row env ttl req id))

  on_stored-IsCached :
      (env : Env) (req : IngestRequest) (rec : NormalizedRecord D) (result : Result StoreError Unit)
      (tables : Tables) (resp : IngestResponse)
      → env.fails Call.set_key ≡ false
      → find idempotency_key req.idempotency_key tables.idempotency ≡ none
      → (on_stored libs ttl env req rec result tables).0 ≡ ok resp
      → IsCached env req rec.internal_id resp (on_stored libs ttl env req rec result tables).1
  unfolding set_response enqueue
  on_stored-IsCached env req rec (ok _) tables resp works new e = (
    cc,
    rw works (
        find-insert_new idempotency_key (reply_row env ttl req rec.internal_id) tables.idempotency
          new),
  )
  on_stored-IsCached env req rec (err _) tables resp works new e = cc

  on_processed-IsCached :
      (env : Env) (req : IngestRequest) (result : Result StageError Unit) (rec : NormalizedRecord D)
      (tables : Tables) (resp : IngestResponse)
      → env.fails Call.set_key ≡ false
      → find idempotency_key req.idempotency_key tables.idempotency ≡ none
      → (on_processed libs ttl env req result rec tables).0 ≡ ok resp
      → resp.success ≡ true
      → IsCached env req rec.internal_id resp (on_processed libs ttl env req result rec tables).1
  unfolding enqueue insert_record
  on_processed-IsCached env req (ok _) rec tables resp works new e s =
      on_stored-IsCached env req rec (insert_record env (stored libs rec) tables).0
        (insert_record env (stored libs rec) tables).1 resp works new e
  on_processed-IsCached env req (err x) rec tables resp works new e s = cc

  first_submit :
      (env : Env) (req : IngestRequest) (tables : Tables) (resp : IngestResponse)
      → env.fails Call.set_key ≡ false
      → find idempotency_key req.idempotency_key tables.idempotency ≡ none
      → (submit_record libs ttl env req tables).0 ≡ ok resp
      → resp.success ≡ true
      → (id : String) × IsCached env req id resp (submit_record libs ttl env req tables).1
  unfolding submit_record process get_response
  first_submit env req tables resp works new e s =
      elim (Bool-cases (env.allow (source_of req.metadata))) [
        | inr q ↦ absurd (let k = rw q at e in cc)
        | inl q ↦ elim (Bool-cases (env.fails Call.get_key)) [
          | inl g ↦ (
            (ingestion_pipeline libs env.now (proto_to_record libs env req)).1.internal_id,
            rw (q, g)
                (on_processed-IsCached env req
                  (ingestion_pipeline libs env.now (proto_to_record libs env req)).0
                  (ingestion_pipeline libs env.now (proto_to_record libs env req)).1 tables resp
                  works new (rw (q, g) at e) s),
          )
          | inr g ↦ (
            (ingestion_pipeline libs env.now (proto_to_record libs env req)).1.internal_id,
            rw (q, g, new)
                (on_processed-IsCached env req
                  (ingestion_pipeline libs env.now (proto_to_record libs env req)).0
                  (ingestion_pipeline libs env.now (proto_to_record libs env req)).1 tables resp
                  works new (rw (q, g, new) at e) s),
          )
        ]
      ]

  -- A key for which no reply was cached, and whose submission then succeeded and was cached, is
  -- processed once: until the reply expires, and whatever other requests and clean-ups come in between,
  -- each request with the key that the rate limiter lets through and that can read the table of replies
  -- gets the first reply, and changes nothing.
  pub submit_record_once :
      (env later : Env) (req again : IngestRequest) (between : List Event) (tables : Tables)
      (resp : IngestResponse)
      → env.fails Call.set_key ≡ false
      → find idempotency_key req.idempotency_key tables.idempotency ≡ none
      → (submit_record libs ttl env req tables).0 ≡ ok resp
      → resp.success ≡ true
      → All (IsEarly (env.now + ttl)) between
      → again.idempotency_key ≡ req.idempotency_key
      → later.allow (source_of again.metadata) ≡ true
      → later.fails Call.get_key ≡ false
      → later.now < env.now + ttl
      → submit_record libs ttl later again
          (happen libs ttl between (submit_record libs ttl env req tables).1)
        ≡ (ok resp, happen libs ttl between (submit_record libs ttl env req tables).1)
  unfolding submit_record get_response
  submit_record_once env later req again between tables resp works new e s before same allowed
        readable early =
      let (id, (same_reply, row)) = first_submit env req tables resp works new e s in
      replayed (happen libs ttl between (submit_record libs ttl env req tables).1) id same_reply (
        happen-stays libs ttl between req.idempotency_key (reply_row env ttl req id)
          (submit_record libs ttl env req tables).1 before row)
    where
      replayed :
          (t : Tables) (id : String)
          → resp ≡ accepted id
          → find idempotency_key req.idempotency_key t.idempotency ≡ some (reply_row env ttl req id)
          → submit_record libs ttl later again t ≡ (ok resp, t)
      replayed t id same_reply row =
          rw (allowed, readable, same, row, lt→ltb later.now (env.now + ttl) early, same_reply) refl

  -- Where no live reply is cached for a key that the records have, a request with the key that the rate
  -- limiter lets through, that passes the pipeline and whose INSERT does not fail is answered as a
  -- success with a new id, and the records are as before.
  pub resubmit_after_expiry :
      (env : Env) (req : IngestRequest) (tables : Tables) (e : StoreError) (old : Record)
      → env.allow (source_of req.metadata) ≡ true
      → (get_response env req.idempotency_key tables).0 ≡ err e
      → (ingestion_pipeline libs env.now (proto_to_record libs env req)).0 ≡ ok tt
      → env.fails Call.insert ≡ false
      → find record_key req.idempotency_key tables.records ≡ some old
      → ((submit_record libs ttl env req tables).0 ≡ ok (accepted env.uuid))
        × ((submit_record libs ttl env req tables).1.records ≡ tables.records)
  unfolding submit_record process insert_record
  resubmit_after_expiry env req tables e old allowed expired passed works stored_once =
      let (same_id, same_key, same_source, same_adapter, same_payload, same_ref) =
        pipeline-Keeps libs env.now (proto_to_record libs env req) in
      again (ingestion_pipeline libs env.now (proto_to_record libs env req)).1
        (unfold proto_to_record in same_id) (unfold proto_to_record in same_key) refl
    where
      again :
          (rec : NormalizedRecord D)
          → rec.internal_id ≡ env.uuid
          → rec.idempotency_key ≡ req.idempotency_key
          → (ingestion_pipeline libs env.now (proto_to_record libs env req)).1 ≡ rec
          → ((submit_record libs ttl env req tables).0 ≡ ok (accepted env.uuid))
            × ((submit_record libs ttl env req tables).1.records ≡ tables.records)
      again rec id key r =
          rw (allowed, expired, passed, r, works, id, key, stored_once) (refl, refl)
