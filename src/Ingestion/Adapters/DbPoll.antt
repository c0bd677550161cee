-- ===== src/Ingestion/Adapters/DbPoll.antt =====
-- services/ingestion/internal/adapters/db.go. The source database is a parameter: what its query
-- returns. Times are nanoseconds since the zero time; the ticker is left out.
pub mod Watermark
use reconx.Base.{
  ◌∙◌, ℕ, suc, ◌≤◌, ◌<◌, String, ◌≡◌, ◌⊎◌, Option, none, some, List, [], ◌∷◌, ◌++◌, if◌then◌else◌,
  ltb, leb,
}
use reconx.Base.Table.{find}
use reconx.Ingestion.Adapters.Cells.{Value, time_value, row_key, row_map, string_val, ref_columns}
use reconx.Ingestion.Pipeline.{NormalizedRecord}
use reconx.Ingestion.Adapters.{AdapterError, context_done, read_failed, Run, skeleton, or_uuid}

abbrev time_of : Option (String × Value) → ℕ
time_of (some (k, time_value t shown)) = t
time_of _ = 0

-- The later of the watermark so far and the row's time, where it has one.
abbrev pub later : ℕ → ℕ → ℕ
later watermark t = if ltb watermark t then t else watermark

pub record Polled (D : Type 0) : Type 0 where
  pub watermark : ℕ
  pub error : Option AdapterError
  pub queue : List (NormalizedRecord D)

-- What the query returns: the columns, the rows with what Scan makes of each, none where it fails, and
-- the error that ends them, if one does. none stands for a query that fails.
pub record Rows : Type 0 where
  pub columns : List String
  pub scans : List (Option (List Value))
  pub error : Option AdapterError

pub record Poller (D : Type 0) : Type 0 where
  pub watermark : ℕ
  pub queue : List (NormalizedRecord D)

-- What Start makes of a poll: an error leaves the watermark, as does a poll that saw no time.
abbrev pub advanced : {D : Type 0} → Polled D → ℕ → ℕ
advanced p watermark = elim p.error [
  | none ↦ if leb p.watermark 0 then watermark else p.watermark
  | some e ↦ watermark
]

-- The rows that scan, by column.
abbrev pub scanned_rows : List String → List (Option (List Value)) → List (List (String × Value))
scanned_rows cols [] = []
scanned_rows cols (none ∷ scans) = scanned_rows cols scans
scanned_rows cols (some vals ∷ scans) = row_map cols vals [] ∷ scanned_rows cols scans

module _ {D : Type 0} (zero_decimal : D) (marshal : List (String × Value) → List ℕ)
    (source_system watermark_column : String) where
  unfoldable pub stamp : List (String × Value) → ℕ
  unfolding find
  stamp row = time_of (find row_key watermark_column row)

  unfoldable pub db_record : String → List (String × Value) → NormalizedRecord D
  unfolding string_val
  db_record uuid row =
      skeleton zero_decimal (or_uuid (string_val row ("idempotency_key" ∷ "id" ∷ [])) uuid)
        (string_val row ref_columns) source_system "db_poll" "" (marshal row) "db_row.v1" []

  -- The loop over the rows. A row that does not scan is passed over.
  unfoldable pub poll_rows :
      Run
      → List String
      → Option AdapterError
      → ℕ
      → ℕ
      → List (Option (List Value))
      → List (NormalizedRecord D)
      → Polled D
  unfolding row_map stamp db_record
  poll_rows run cols last n latest [] queue = record {
    watermark = latest;
    error = last;
    queue = queue;
  }
  poll_rows run cols last n latest (none ∷ scans) queue =
      poll_rows run cols last n latest scans queue
  poll_rows run cols last n latest (some vals ∷ scans) queue =
      let row = row_map cols vals [] in
      let rest =
        poll_rows run cols last (suc n) (later latest (stamp row)) scans
          (queue ++ db_record (run.new_uuid n) row ∷ []) in
      if run.cancelled n
      then record { watermark = later latest (stamp row); error = some context_done; queue = queue }
      else rest

  unfoldable pub poll : Run → Option Rows → List (NormalizedRecord D) → Polled D
  unfolding poll_rows
  poll run none queue = record { watermark = 0; error = some read_failed; queue = queue }
  poll run (some rows) queue = poll_rows run rows.columns rows.error 0 0 rows.scans queue

  -- A tick; the query is given the watermark.
  unfoldable pub tick : Run → (ℕ → Option Rows) → Poller D → Poller D
  unfolding poll
  tick run query poller =
      let p = poll run (query poller.watermark) poller.queue in
      record { watermark = advanced p poller.watermark; queue = p.queue }

  unfoldable pub start : List (Run × (ℕ → Option Rows)) → Poller D → Poller D
  unfolding tick
  start [] poller = poller
  start ((run, query) ∷ ticks) poller = start ticks (tick run query poller)

  -- The times of the rows that scan.
  abbrev pub stamps : List String → List (Option (List Value)) → List ℕ
  stamps cols [] = []
  stamps cols (none ∷ scans) = stamps cols scans
  stamps cols (some vals ∷ scans) = stamp (row_map cols vals []) ∷ stamps cols scans
