-- ===== src/Ingestion/Adapters/File.antt =====
-- services/ingestion/internal/adapters/file.go. The texts of errors are left out of the answers.
use mathlib.Core.Option
use reconx.Base.{
  ℕ, suc, String, Bool, ◌&&◌, not, Option, none, some, List, [], ◌∷◌, ◌==◌, if◌then◌else◌, leb,
  length, any, get_elem?,
}
use reconx.Base.Table.{find, upsert}
use reconx.Base.Text.{to_lower, trim_space, extension}
use reconx.Ingestion.Pipeline.{NormalizedRecord}
use reconx.Ingestion.Adapters.{
  Codec, Run, AdapterError, bad_csv, Queued, skeleton, or_uuid, queue_each,
}
use reconx.Ingestion.Adapters.Lines.{scan_lines, non_empty}
use reconx.Ingestion.Adapters.Rest.{max_buffer}

abbrev pub column_key : {V : Type 0} → String × V → String
column_key column = column.0

-- `colIndex[strings.ToLower(strings.TrimSpace(h))] = i` for each header.
unfoldable pub col_index : ℕ → List String → List (String × ℕ) → List (String × ℕ)
unfolding to_lower trim_space upsert
col_index i [] columns = columns
col_index i (h ∷ headers) columns =
    let name = to_lower (trim_space h) in
    col_index (suc i) headers (upsert column_key (name, i) (λ _. (name, i)) columns)

-- The object of a row: the columns that the row reaches.
unfoldable pub row_object : List (String × ℕ) → List String → List (String × String)
row_object [] row = []
row_object ((col, idx) ∷ columns) row =
    let rest = row_object columns row in
    elim (get_elem? row idx) [ none ↦ rest | some field ↦ (col, field) ∷ rest ]

-- `obj[key]`, "" where there is none.
unfoldable pub field_of : List (String × String) → String → String
unfolding find
field_of obj key =
    Option.get_or (Option.map (λ (c : String × String). c.1) (find column_key key obj)) ""

-- The rows before the first that does not parse, and the error that it gives.
unfoldable pub good_rows : List (Option (List String)) → List (List String) × Option AdapterError
good_rows [] = ([], none)
good_rows (none ∷ reads) = ([], some bad_csv)
good_rows (some row ∷ reads) = let (rows, error) = good_rows reads in (row ∷ rows, error)

module _ {D : Type 0} (codec : Codec) (zero_decimal : D) where
  unfoldable pub file_record : String → String → List ℕ → NormalizedRecord D
  file_record source uuid raw =
      let p = codec.partial_of raw in
      skeleton zero_decimal (or_uuid p.idempotency_key uuid) p.transaction_ref source "file" "" raw
        "" []

  unfoldable pub parse_ndjson : Run → String → List ℕ → List (NormalizedRecord D) → Queued D
  unfolding scan_lines queue_each file_record
  parse_ndjson run source bytes queue =
      let (tokens, error) = scan_lines max_buffer bytes in
      queue_each run (file_record source) error 0 (non_empty tokens) queue

  unfoldable pub csv_record : String → List (String × ℕ) → String → List String → NormalizedRecord D
  unfolding row_object field_of
  csv_record source columns uuid row =
      let obj = row_object columns row in
      skeleton zero_decimal (or_uuid (field_of obj "idempotency_key") uuid)
        (field_of obj "transaction_ref") source "file" "" (codec.marshal_row obj) "csv.v1" []

  abbrev pub failed_header : List (NormalizedRecord D) → Queued D
  failed_header queue = record { count = 0; error = some bad_csv; queue = queue }

  -- The results of Read, the first of which is the header; EOF there is an error too.
  unfoldable pub parse_reads :
      Run → String → List (Option (List String)) → List (NormalizedRecord D) → Queued D
  unfolding col_index good_rows queue_each csv_record
  parse_reads run source [] queue = failed_header queue
  parse_reads run source (none ∷ reads) queue = failed_header queue
  parse_reads run source (some headers ∷ reads) queue =
      let (rows, error) = good_rows reads in
      queue_each run (csv_record source (col_index 0 headers [])) error 0 rows queue

  unfoldable pub parse_csv : Run → String → List ℕ → List (NormalizedRecord D) → Queued D
  unfolding parse_reads
  parse_csv run source bytes queue = parse_reads run source (codec.read_csv bytes) queue

  unfoldable pub parse_file : Run → String → String → List ℕ → List (NormalizedRecord D) → Queued D
  unfolding parse_csv parse_ndjson
  parse_file run ext source bytes queue =
      if ext == ".csv"
      then parse_csv run source bytes queue
      else parse_ndjson run source bytes queue

-- What ParseMultipartForm, FormValue and FormFile find in a body within the limit.
pub record Form : Type 0 where
  pub source_system : String
  pub file : Option (String × List ℕ)

-- The status, and of a 202 the file's name, the count and the source.
pub record FileReply : Type 0 where
  pub status : ℕ
  pub queued : Option (String × ℕ × String)

unfoldable pub allowed_ext : List String → String → Bool
allowed_ext allowed_extensions ext = any (λ a. a == ext) allowed_extensions

abbrev pub is_refused_ext : List String → String → Bool
is_refused_ext allowed_extensions ext =
    not (leb (length allowed_extensions) 0) && not (allowed_ext allowed_extensions ext)

abbrev refused : ℕ → FileReply
refused code = record { status = code; queued = none }

abbrev reply_to : String → String → Option AdapterError → ℕ → FileReply
reply_to name source none count = record { status = 202; queued = some (name, count, source) }
reply_to name source (some e) count = refused 422

module _ {D : Type 0} (codec : Codec) (zero_decimal : D) (allowed_extensions : List String)
    (run : Run) where
  unfoldable pub serve_upload :
      String → String → List ℕ → List (NormalizedRecord D) → FileReply × List (NormalizedRecord D)
  unfolding extension to_lower allowed_ext parse_file
  serve_upload source name bytes queue =
      let ext = to_lower (extension name) in
      let q = parse_file codec zero_decimal run ext source bytes queue in
      if is_refused_ext allowed_extensions ext
      then (refused 400, queue)
      else (reply_to name source q.error q.count, q.queue)

  abbrev pub serve_form : Form → List (NormalizedRecord D) → FileReply × List (NormalizedRecord D)
  serve_form form queue =
      if form.source_system == "" then (refused 400, queue) else elim form.file [
        | none ↦ (refused 400, queue)
        | some (name, bytes) ↦ serve_upload form.source_system name bytes queue
      ]

  unfoldable pub serve_file :
      String → Option Form → List (NormalizedRecord D) → FileReply × List (NormalizedRecord D)
  unfolding serve_upload
  serve_file method none queue =
      if not (method == "POST") then (refused 405, queue) else (refused 400, queue)
  serve_file method (some form) queue =
      if not (method == "POST") then (refused 405, queue) else serve_form form queue
