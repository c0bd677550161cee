-- ===== src/Resolution/Tables.antt =====
-- services/resolution/internal/db/db.go: the tables that the service reads and writes, and what a
-- statement on them can do. Statements are atomic: one that fails changes nothing.
use reconx.Base.{◌≡◌, ℕ, String, Bool, Option, none, some, List, [], ◌∷◌, if◌then◌else◌}
use reconx.Base.Exec.{Result, ok, err, Exec}

-- One row of recon_state, owned by the engine.
pub record ReconState : Type 0 where
  pub transaction_ref : String
  pub status : String
  pub last_updated : ℕ

-- One row of recon_match_details, owned by the engine; `amount` may be NULL. `source_system` is what
-- the amount queries read, and means nothing where the table has no such column.
pub record DetailRow : Type 0 where
  pub transaction_ref : String
  pub system_name : String
  pub source_system : String
  pub discrepancy_found : Bool
  pub amount : Option String

-- One row of ingestion_records, as far as the resolver reads it.
pub record SourceRow : Type 0 where
  pub transaction_ref : String
  pub source_system : String
  pub server_received_at : ℕ

pub record ResolutionRecord : Type 0 where
  pub transaction_ref : String
  pub resolution_type : String
  pub chosen_source : String
  pub resolution_reason : String
  pub resolver_id : String
  pub strategy : String
  pub resolved_at : ℕ

pub record RetryQueueRow : Type 0 where
  pub transaction_ref : String
  pub attempt_count : ℕ
  pub max_attempts : ℕ
  pub last_attempted_at : Option ℕ
  pub next_retry_at : ℕ
  pub status : String
  pub requested_by : String
  pub created_at : ℕ

-- A value of the JSON object in an audit entry; `decimal n` is the text that strconv.Itoa makes.
pub data Value : Type 0 where
  text : String → Value
  decimal : ℕ → Value
  number : ℕ → Value
  flag : Bool → Value
  time : ℕ → Value

-- One row of recon_audit_log; the id that the database assigns is left out.
pub record AuditLogRow : Type 0 where
  pub transaction_ref : String
  pub event_type : String
  pub old_status : Option String
  pub new_status : Option String
  pub details : List (String × Value)
  pub created_at : ℕ

pub record Database : Type 0 where
  pub recon_state : List ReconState
  pub match_details : List DetailRow
  pub ingestion_records : List SourceRow
  pub resolution_records : List ResolutionRecord
  pub retry_queue : List RetryQueueRow
  pub audit_log : List AuditLogRow

-- The calls of the database that a handler makes, each at most once in a run of it; an audit entry
-- is told apart by its event type.
pub data Call : Type 0 where
  get_state update_state insert_resolution audit_trail list_mismatched match_details enqueue : Call
  pending_retries increment exhaust resolve retry_queue queue_stats : Call
  by_latest by_first by_highest by_lowest present : Call
  audit : String → Call

-- What a run of a handler finds: the clock (nanoseconds since the zero time), which of its calls of
-- the database fail, the columns of recon_match_details, and PostgreSQL's comparison of texts and of
-- amounts read as NUMERIC.
pub record Env : Type 0 where
  pub now : ℕ
  pub fails : Call → Bool
  pub match_details_columns : List String
  pub text_ltb : String → String → Bool
  pub numeric_leb : String → String → Bool

pub data DbError : Type 0 where
  no_rows : DbError
  failed : DbError

abbrev pub Db : Type 0 → Type 0 → Type 0
Db E A = Exec Database E A

-- What `db.ExecContext` reports, and what it leaves of the table that it writes.
abbrev pub done : Env → Call → Result DbError Unit
done env call = if env.fails call then err failed else ok tt

abbrev pub written : {A : Type 0} → Env → Call → (old new : A) → A
written env call old new = if env.fails call then old else new

-- `db.QueryContext` with the loop that scans the rows
abbrev pub query : {A : Type 0} → Env → Call → (Database → A) → Db DbError A
query env call f db = (if env.fails call then err failed else ok (f db), db)

abbrev pub scanned : {A : Type 0} → Option A → Result DbError A
scanned none = err no_rows
scanned (some a) = ok a

pub scanned-ok : {A : Type 0} (o : Option A) {a : A} → scanned o ≡ ok a → o ≡ some a
scanned-ok none h = cc
scanned-ok (some x) h = cc

-- `db.QueryRowContext(…).Scan`
abbrev pub query_row : {A : Type 0} → Env → Call → (Database → Option A) → Db DbError A
query_row env call f db = (if env.fails call then err failed else scanned (f db), db)

-- The columns that the engine's migration gives recon_match_details (services/engine/src/db/queries.rs).
abbrev pub engine_columns : List String
engine_columns =
    "id" ∷ "transaction_ref" ∷ "system_name" ∷ "internal_id" ∷ "amount" ∷ "currency"
    ∷ "data_captured" ∷ "discrepancy_found" ∷ "discrepancy_details" ∷ "processed_at" ∷ []
