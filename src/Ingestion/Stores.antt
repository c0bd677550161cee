-- ===== src/Ingestion/Stores.antt =====
-- services/ingestion/internal: idempotency, storage and dlq, the three tables of the service.
-- Statements are atomic: one that fails changes nothing.
pub mod Fresh
pub mod Purged
pub mod Retried
pub mod Depth
use reconx.Base.{
  ℕ, ◌+◌, ◌*◌, ◌^◌, String, Bool, true, not, ◌&&◌, Option, none, some, List, [], ◌∷◌, ◌++◌, ltb,
  leb, ◌==◌, if◌then◌else◌, take, select,
}
use reconx.Base.Exec.{Result, ok, err, Exec}
use reconx.Base.Order.{sort}
use reconx.Base.Table.{find}
use reconx.Ingestion.Pipeline.{Tags, is_none}

-- The stored response; it is kept as JSON, which reads back as what was written.
pub record CachedResponse : Type 0 where
  pub internal_id : String
  pub success : Bool
  pub error_code : String
  pub stored_at : ℕ

pub record IdempotencyRow : Type 0 where
  pub idempotency_key : String
  pub response : CachedResponse
  pub source_system : String
  pub expires_at : ℕ

-- One row of ingestion_records; a time that is not known is NULL.
pub record Record : Type 0 where
  pub internal_id : String
  pub idempotency_key : String
  pub transaction_ref : String
  pub source_system : String
  pub adapter_type : String
  pub amount : String
  pub currency : String
  pub record_timestamp : Option ℕ
  pub server_received_at : ℕ
  pub raw_payload : List ℕ
  pub payload_schema : String
  pub tags : Tags
  pub trace_id : String
  pub status : String

-- One row of the dead letter queue, without the text of the error.
pub record Entry : Type 0 where
  pub id : ℕ
  pub idempotency_key : String
  pub transaction_ref : String
  pub source_system : String
  pub adapter_type : String
  pub raw_payload : List ℕ
  pub error_stage : String
  pub error_reason : String
  pub retry_count : ℕ
  pub created_at : ℕ
  pub last_attempt_at : ℕ

pub record Tables : Type 0 where
  pub idempotency : List IdempotencyRow
  pub records : List Record
  pub dlq : List Entry

pub data Call : Type 0 where
  get_key set_key purge_keys insert add_entry eligible count_retry delete by_ref by_source group :
      Call

-- What a run finds: the clock, which calls of the database fail, the id of uuid.New(), the next value
-- of the BIGSERIAL, and which sources the rate limiter lets through.
pub record Env : Type 0 where
  pub now : ℕ
  pub fails : Call → Bool
  pub uuid : String
  pub serial : ℕ
  pub allow : String → Bool

pub data StoreError : Type 0 where
  key_not_found : StoreError
  failed : StoreError

abbrev pub Store : Type 0 → Type 0 → Type 0
Store E A = Exec Tables E A

abbrev pub done : Env → Call → Result StoreError Unit
done env call = if env.fails call then err failed else ok tt

abbrev pub written : {A : Type 0} → Env → Call → (old new : A) → A
written env call old new = if env.fails call then old else new

abbrev pub query : {A : Type 0} → Env → Call → (Tables → A) → Store StoreError A
query env call f tables = (if env.fails call then err failed else ok (f tables), tables)

abbrev pub idempotency_key : IdempotencyRow → String
idempotency_key row = row.idempotency_key

abbrev pub record_key : Record → String
record_key r = r.idempotency_key

abbrev pub internal_id : Record → String
internal_id r = r.internal_id

-- The row of the key where it has not expired.
abbrev pub live : ℕ → Option IdempotencyRow → Result StoreError CachedResponse
live now none = err key_not_found
live now (some row) = if ltb now row.expires_at then ok row.response else err key_not_found

unfoldable pub get_response : Env → String → Store StoreError CachedResponse
get_response env key tables = (
  if env.fails Call.get_key
      then err failed
      else live env.now (find idempotency_key key tables.idempotency),
  tables,
)

-- INSERT … ON CONFLICT (key) DO NOTHING
abbrev pub insert_new : {A : Type 0} → (A → String) → A → List A → List A
insert_new key row rows = if is_none (find key (key row) rows) then rows ++ row ∷ [] else rows

unfoldable pub set_response : Env → ℕ → String → String → CachedResponse → Store StoreError Unit
set_response env ttl key source_system response tables =
    let row : IdempotencyRow = record {
      idempotency_key = key;
      response = response;
      source_system = source_system;
      expires_at = env.now + ttl;
    } in
    (
      done env Call.set_key,
      record tables {
        idempotency =
            written env Call.set_key tables.idempotency
              (insert_new idempotency_key row tables.idempotency);
      },
    )

abbrev pub is_live : ℕ → IdempotencyRow → Bool
is_live now row = ltb now row.expires_at

unfoldable pub purge : Env → Store StoreError Unit
purge env tables = (
  done env Call.purge_keys,
  record tables {
    idempotency =
        written env Call.purge_keys tables.idempotency
          (select (is_live env.now) tables.idempotency);
  },
)

-- The primary key is internal_id: a second row with one is a violation, unless the conflict on the
-- idempotency key has already made the statement do nothing.
abbrev pub violates : Record → Tables → Bool
violates r tables =
    is_none (find record_key r.idempotency_key tables.records)
    && not (is_none (find internal_id r.internal_id tables.records))

unfoldable pub insert_record : Env → Record → Store StoreError Unit
insert_record env r tables =
    let refused = if env.fails Call.insert then true else violates r tables in
    (
      if refused then err failed else ok tt,
      record tables {
        records = if refused then tables.records else insert_new record_key r tables.records;
      },
    )

abbrev pub received_first : Record → Record → Bool
received_first a b = leb a.server_received_at b.server_received_at

abbrev pub received_last : Record → Record → Bool
received_last a b = leb b.server_received_at a.server_received_at

unfoldable pub get_by_transaction_ref : Env → String → Store StoreError (List Record)
get_by_transaction_ref env tx_ref =
    query env Call.by_ref
      λ tables. sort received_first (select (λ r. r.transaction_ref == tx_ref) tables.records)

unfoldable pub get_by_source : Env → String → ℕ → Store StoreError (List Record)
get_by_source env source_system limit = query env Call.by_source λ tables.
    take limit (sort received_last (select (λ r. r.source_system == source_system) tables.records))

unfoldable pub enqueue : Env → Entry → Store StoreError Unit
enqueue env entry tables = (
  done env Call.add_entry,
  record tables { dlq = written env Call.add_entry tables.dlq (tables.dlq ++ entry ∷ []) },
)

abbrev pub created_first : Entry → Entry → Bool
created_first a b = leb a.created_at b.created_at

unfoldable pub dequeue : Env → (max_retries limit : ℕ) → Store StoreError (List Entry)
dequeue env max_retries limit = query env Call.eligible λ tables.
    take limit (sort created_first (select (λ e. ltb e.retry_count max_retries) tables.dlq))

abbrev pub has_id : ℕ → Entry → Bool
has_id id e = leb e.id id && leb id e.id

abbrev pub retried : Env → Entry → Entry
retried env e = record e { retry_count = e.retry_count + 1; last_attempt_at = env.now }

unfoldable pub retry_entry : Env → ℕ → List Entry → List Entry
retry_entry env id [] = []
retry_entry env id (e ∷ es) = (if has_id id e then retried env e else e) ∷ retry_entry env id es

unfoldable pub mark_retried : Env → ℕ → Store StoreError Unit
unfolding retry_entry
mark_retried env id tables = (
  done env Call.count_retry,
  record tables { dlq = written env Call.count_retry tables.dlq (retry_entry env id tables.dlq) },
)

unfoldable pub delete_entry : Env → ℕ → Store StoreError Unit
delete_entry env id tables = (
  done env Call.delete,
  record tables {
    dlq = written env Call.delete tables.dlq (select (λ e. not (has_id id e)) tables.dlq);
  },
)
