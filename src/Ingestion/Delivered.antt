-- ===== src/Ingestion/Delivered.antt =====
-- The adapters, the queue between them and the consumer, and the server behind it, put together:
-- webhook.go and kafka.go with cmd/main.go (consumeAdapterQueue) and server.go.
use reconx.Base.{
  ℕ, String, ◌≡◌, subst, ◌⊎◌, inl, inr, Option, some, List, [], ◌∷◌, ◌++◌, length, All, All-Memᴰ,
  arith,
}
use reconx.Ingestion.Pipeline.{NormalizedRecord, Libs}
use reconx.Ingestion.Stores.{Tables, Env}
use reconx.Ingestion.Server.{consume_adapter_queue}
use reconx.Ingestion.Server.Grows.{IsBacked}
use reconx.Ingestion.Server.Drained.{IsKept, IsServed, IsDrained, consume_adapter_queue-IsDrained}
use reconx.Ingestion.Adapters.{Codec, Run, or_uuid}
use reconx.Ingestion.Adapters.Queueing.{records_from}
use reconx.Ingestion.Adapters.Webhook.{
  WebhookRequest, max_body, read_all, webhook_record, webhook_source, serve_webhook,
}
use reconx.Ingestion.Adapters.Accepted.{items_of, serve_webhook_accepts}
use reconx.Ingestion.Adapters.Kafka.{
  Message, Fetch, Consumer, to_record, start, IsHandled, start-IsHandled,
}

-- The queue as the consumer receives it: each record with what its run finds.
abbrev pub received :
    {D : Type 0} → List Env → List (NormalizedRecord D) → List (Env × Option (NormalizedRecord D))
received [] recs = []
received (env ∷ envs) [] = []
received (env ∷ envs) (rec ∷ recs) = (env, some rec) ∷ received envs recs

module _ {D : Type 0} where
  All-IsKept :
      (tables : Tables) (envs : List Env) (recs : List (NormalizedRecord D))
      → length envs ≡ length recs
      → All (IsDrained tables) (received envs recs)
      → All (λ rec. IsKept rec tables) recs
  All-IsKept tables [] [] e h = tt
  All-IsKept tables [] (rec ∷ recs) e h = absurd (omega arith)
  All-IsKept tables (env ∷ envs) [] e h = tt
  All-IsKept tables (env ∷ envs) (rec ∷ recs) e h =
      (h.0, All-IsKept tables envs recs (omega arith) h.1)

  All-right :
      (P : NormalizedRecord D → Type 0) (xs ys : List (NormalizedRecord D))
      → All P (xs ++ ys)
      → All P ys
  All-right P [] ys h = h
  All-right P (x ∷ xs) ys h = All-right P xs ys h.1

module _ {D : Type 0} (libs : Libs D) (ttl : ℕ) (codec : Codec) (envs : List Env)
    (tables : Tables) where
  -- The records on a queue that is drained whole are kept.
  queue-IsKept :
      (queue : List (NormalizedRecord D))
      → length envs ≡ length queue
      → All IsServed (received envs queue)
      → IsBacked tables
      → All (λ rec. IsKept rec (consume_adapter_queue libs ttl (received envs queue) tables)) queue
  queue-IsKept queue whole served backed =
      All-IsKept (consume_adapter_queue libs ttl (received envs queue) tables) envs queue whole
        (consume_adapter_queue-IsDrained libs ttl (received envs queue) tables served backed)

  -- What a webhook answers with 202 is delivered: once the queue is drained, each item of the body, up
  -- to the limit, has its key among the records, or an entry of the dead letter queue with its key,
  -- source and bytes. The rate limiter lets the queued records through, the dead letter queue can be
  -- written, and each reply that was cached before stands for a stored record.
  pub serve_webhook_delivers :
      (max_body_bytes : ℕ) (run : Run) (trace_uuid : String) (req : WebhookRequest)
      (queue : List (NormalizedRecord D))
      → (serve_webhook codec libs.zero_decimal max_body_bytes run trace_uuid req queue).0.status
        ≡ 202
      → length envs
        ≡ length (serve_webhook codec libs.zero_decimal max_body_bytes run trace_uuid req queue).1
      → All IsServed (
          received envs
            (serve_webhook codec libs.zero_decimal max_body_bytes run trace_uuid req queue).1)
      → IsBacked tables
      → (bytes : List ℕ) × (read_all (max_body max_body_bytes) req ≡ some bytes)
        × All
            (λ rec. IsKept rec (
              consume_adapter_queue libs ttl
                (received envs
                  (serve_webhook codec libs.zero_decimal max_body_bytes run trace_uuid req queue).1)
                tables))
            (records_from run
              (webhook_record codec libs.zero_decimal
                (webhook_source req)
                (or_uuid req.trace_header trace_uuid))
              0
              (items_of codec bytes).0)
  serve_webhook_delivers max_body_bytes run trace_uuid req queue e whole served backed =
      let after =
        (serve_webhook codec libs.zero_decimal max_body_bytes run trace_uuid req queue).1 in
      let (bytes, body, _, _, queued) =
        serve_webhook_accepts codec libs.zero_decimal max_body_bytes run trace_uuid req queue e in
      let drained : Tables = consume_adapter_queue libs ttl (received envs after) tables in
      (
        bytes,
        body,
        All-right (λ rec. IsKept rec drained) queue _
            (subst (All (λ rec. IsKept rec drained)) queued
              (queue-IsKept after whole served backed)),
      )

  module _ (decimal : ℕ → String) (source_system : String) where
    -- A message without a value, or one with a record that is kept.
    abbrev pub IsDelivered : Tables → Message → Type 0
    IsDelivered after msg =
        (msg.value ≡ [])
        ⊎ ((uuid : String) × (rec : NormalizedRecord D) × (to_record codec libs.zero_decimal decimal
                source_system uuid msg
              ≡ some rec)
            × IsKept rec after)

    All-IsDelivered :
        (queue : List (NormalizedRecord D)) (after : Tables) (msgs : List Message)
        → All (λ rec. IsKept rec after) queue
        → All (IsHandled codec libs.zero_decimal decimal source_system queue) msgs
        → All (IsDelivered after) msgs
    All-IsDelivered queue after [] kept h = tt
    All-IsDelivered queue after (m ∷ msgs) kept h = (
      elim h.0 [
        | inl e ↦ inl e
        | inr (u, rec, e, on) ↦ inr (u, rec, e, All-Memᴰ (λ rec. IsKept rec after) on kept)
      ],
      All-IsDelivered queue after msgs kept h.1,
    )

    -- What a Kafka consumer commits is delivered: once the queue that its run leaves is drained, each
    -- message that it committed has no value, or its record has its key among the records, or an entry
    -- of the dead letter queue with its key, source and bytes. The rate limiter lets the queued records
    -- through, the dead letter queue can be written, and each cached reply stands for a stored record.
    pub start-IsDelivered :
        (fetches : List Fetch) (c : Consumer D)
        → All (IsHandled codec libs.zero_decimal decimal source_system c.queue) c.committed
        → length envs ≡ length (start codec libs.zero_decimal decimal source_system fetches c).queue
        → All IsServed
            (received envs (start codec libs.zero_decimal decimal source_system fetches c).queue)
        → IsBacked tables
        → All
            (IsDelivered (
              consume_adapter_queue libs ttl
                (received envs
                  (start codec libs.zero_decimal decimal source_system fetches c).queue)
                tables))
            (start codec libs.zero_decimal decimal source_system fetches c).committed
    start-IsDelivered fetches c h whole served backed =
        let c' = start codec libs.zero_decimal decimal source_system fetches c in
        let after : Tables = consume_adapter_queue libs ttl (received envs c'.queue) tables in
        All-IsDelivered c'.queue after c'.committed (queue-IsKept c'.queue whole served backed)
          (start-IsHandled codec libs.zero_decimal decimal source_system fetches c h)
