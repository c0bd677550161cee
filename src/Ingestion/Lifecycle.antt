-- ===== src/Ingestion/Lifecycle.antt =====
-- services/ingestion/cmd/main.go, main: the service from its start to its exit, as steps of its
-- goroutines in any order. Between the start and the signal the HTTP adapters and the Kafka consumer
-- fill the queue and acknowledge what they have put on it, its consumer empties it, and the gRPC server serves; after the signal main stops one
-- server after the other. The metrics server, the gauges and the purge are left out.
pub mod Accounted
pub mod Lost
use reconx.Base.{
  Memᴰ, All, ℕ, ◌*◌, ◌<◌, Bool, true, false, ◌&&◌, ◌≡◌, Option, none, some, List, [], ◌∷◌, ◌++◌,
  length, if◌then◌else◌,
}
use reconx.Ingestion.Pipeline.{NormalizedRecord, Libs}
use reconx.Ingestion.Stores.{Tables, Env}
use reconx.Ingestion.Server.{IngestRequest, submit_record, normalized_to_proto}

-- make(chan …, 10_000)
abbrev pub queue_capacity : ℕ
queue_capacity = 10000

-- The stages of main: serving until the signal, then each call of the graceful shutdown.
pub data Phase : Type 0 where
  serving grpc_stopping http_stopping metrics_stopping database_closing exited : Phase

abbrev pub next_phase : Phase → Phase
next_phase serving = grpc_stopping
next_phase grpc_stopping = http_stopping
next_phase http_stopping = metrics_stopping
next_phase metrics_stopping = database_closing
next_phase database_closing = exited
next_phase exited = exited

-- mainCancel is called at the signal.
abbrev pub is_cancelled : Phase → Bool
is_cancelled serving = false
is_cancelled _ = true

-- A gRPC request that is running may end during the call that stops the server. An HTTP request may
-- outlast the time that the shutdown gives it.
abbrev pub is_grpc_open : Phase → Bool
is_grpc_open serving = true
is_grpc_open grpc_stopping = true
is_grpc_open _ = false

abbrev pub is_http_open : Phase → Bool
is_http_open exited = false
is_http_open _ = true

-- What the adapters have put on the queue and what they have acknowledged, and what the consumer of the
-- queue has submitted, are kept as well.
pub record Service (D : Type 0) : Type 0 where
  pub phase : Phase
  pub consuming : Bool
  pub queue : List (NormalizedRecord D)
  pub tables : Tables
  pub queued : List (NormalizedRecord D)
  pub acknowledged : List (NormalizedRecord D)
  pub submitted : List (NormalizedRecord D)

-- What is fatal at the start where it fails; a ping of the database that fails is not.
pub record Startup : Type 0 where
  pub configured : Bool
  pub opened : Bool
  pub storage_ready : Bool
  pub idempotency_ready : Bool
  pub dlq_ready : Bool
  pub listening : Bool

unfoldable pub start_up : {D : Type 0} → Startup → Tables → Option (Service D)
start_up s tables =
    if s.configured && s.opened && s.storage_ready && s.idempotency_ready && s.dlq_ready
      && s.listening
    then some (record {
      phase = serving;
      consuming = true;
      queue = [];
      tables = tables;
      queued = [];
      acknowledged = [];
      submitted = [];
    })
    else none

module _ {D : Type 0} (libs : Libs D) (ttl : ℕ) where
  abbrev pub accepting : NormalizedRecord D → Service D → Service D
  accepting rec s = record s { queue = s.queue ++ rec ∷ []; queued = s.queued ++ rec ∷ [] }

  -- The answer of a webhook or a file upload, or a commit of the Kafka consumer; it may never come.
  abbrev pub acknowledging : List (NormalizedRecord D) → Service D → Service D
  acknowledging recs s = record s { acknowledged = s.acknowledged ++ recs }

  abbrev pub consumed : Env → NormalizedRecord D → List (NormalizedRecord D) → Service D → Service D
  consumed env rec rest s = record s {
    queue = rest;
    tables = (submit_record libs ttl env (normalized_to_proto rec) s.tables).1;
    submitted = s.submitted ++ rec ∷ [];
  }

  pub data Step (s t : Service D) : Type 0 where
    accept :
        (rec : NormalizedRecord D)
        → is_http_open s.phase ≡ true
        → length s.queue < queue_capacity
        → t ≡ accepting rec s
        → Step s t
    acknowledge :
        (recs : List (NormalizedRecord D))
        → is_http_open s.phase ≡ true
        → All (λ rec. Memᴰ rec s.queued) recs
        → t ≡ acknowledging recs s
        → Step s t
    consume :
        (env : Env) (rec : NormalizedRecord D) (rest : List (NormalizedRecord D))
        → s.consuming ≡ true
        → s.queue ≡ rec ∷ rest
        → t ≡ consumed env rec rest s
        → Step s t
    serve :
        (env : Env) (req : IngestRequest)
        → is_grpc_open s.phase ≡ true
        → t ≡ record s { tables = (submit_record libs ttl env req s.tables).1 }
        → Step s t
    stop_consuming : is_cancelled s.phase ≡ true → t ≡ record s { consuming = false } → Step s t
    advance : t ≡ record s { phase = next_phase s.phase } → Step s t

  pub data Reach (s : Service D) : Service D → Type 0 where
    here : Reach s s
    next : {t u : Service D} → Reach s t → Step t u → Reach s u
