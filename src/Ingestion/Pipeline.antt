-- ===== src/Ingestion/Pipeline.antt =====
-- services/ingestion/internal/pipeline: the canonical record and the stages that a record runs
-- through. The texts of errors are left out; a time counts nanoseconds from the zero time. encoding/json,
-- shopspring/decimal and time.Parse are the parameters `Libs`.
pub mod Validity
pub mod Kept
pub mod Outcome
use Prim.Native.Char.{code}
use reconx.Base.{
  ℕ, ◌+◌, ◌*◌, ◌^◌, String, Bool, true, false, not, ◌&&◌, ◌||◌, Option, none, some, List, [], ◌∷◌,
  ltb, leb, ◌==◌, if◌then◌else◌, length, any,
}
use reconx.Base.Exec.{ok, err, Exec, pure, ◌>>=◌, ◌>>◌, reject_if}
use reconx.Base.Table.{find, upsert}
use reconx.Base.Text.{to_upper, trim_space}

abbrev pub Tags : Type 0
Tags = List (String × String)

abbrev pub tag_key : String × String → String
tag_key tag = tag.0

-- `tags[k] = v`
abbrev pub set_tag : String → String → Tags → Tags
set_tag k v tags = upsert tag_key (k, v) (λ _. (k, v)) tags

abbrev pub is_none : {A : Type 0} → Option A → Bool
is_none none = true
is_none (some a) = false

pub record NormalizedRecord (Decimal : Type 0) : Type 0 where
  pub internal_id : String
  pub idempotency_key : String
  pub transaction_ref : String
  pub source_system : String
  pub adapter_type : String
  pub amount : Decimal
  pub currency : String
  pub record_timestamp : ℕ
  pub server_received_at : ℕ
  pub raw_payload : List ℕ
  pub payload_schema : String
  pub tags : Tags
  pub trace_id : String

pub record RawIngestPayload : Type 0 where
  pub transaction_ref : String
  pub amount : String
  pub currency : String
  pub event_time : String
  pub schema : String
  pub extra : Tags

-- What the stages call of the libraries: json.Unmarshal into a RawIngestPayload, the operations on
-- decimals, and time.Parse, given the layout first.
pub record Libs (Decimal : Type 0) : Type 0 where
  pub unmarshal : List ℕ → Option RawIngestPayload
  pub zero_decimal : Decimal
  pub new_from_string : String → Option Decimal
  pub is_zero : Decimal → Bool
  pub is_negative : Decimal → Bool
  pub to_text : Decimal → String
  pub parse : String → String → Option ℕ

pub record StageError : Type 0 where
  pub stage : String
  pub reason : String

abbrev pub Stage : Type 0 → Type 0
Stage D = Exec (NormalizedRecord D) StageError Unit

abbrev pub stage_error : String → String → StageError
stage_error stage reason = record { stage = stage; reason = reason }

-- `Run`: the first error ends it; what the stages before it wrote stays in the record.
unfoldable pub run : {D : Type 0} → List (Stage D) → Stage D
run [] = pure tt
run (stage ∷ stages) = stage >> run stages

-- 32 MB and five minutes.
abbrev pub max_payload_size : ℕ
max_payload_size = 32 * 1024 * 1024

abbrev pub clock_skew_tolerance : ℕ
clock_skew_tolerance = 5 * 60 * 10 ^ 9

abbrev pub valid_iso4217 : List String
valid_iso4217 =
    "INR" ∷ "USD" ∷ "EUR" ∷ "GBP" ∷ "JPY" ∷ "AUD" ∷ "CAD" ∷ "CHF" ∷ "CNY" ∷ "SGD" ∷ "AED" ∷ "MYR"
    ∷ []

abbrev pub is_known_currency : String → Bool
is_known_currency currency = any (λ c. c == currency) valid_iso4217

unfoldable pub all_printable : String → Bool
all_printable String.[] = true
all_printable (String.◌∷◌ c s) = leb 32 (code c) && leb (code c) 126 && all_printable s

-- The pattern ^[\x20-\x7E]+$.
unfoldable pub matches_tx_ref : String → Bool
unfolding all_printable
matches_tx_ref s = not (s == "") && all_printable s

-- What time.Now() and the generated ids are in a run is a parameter of each function.
unfoldable pub enrich : {D : Type 0} → ℕ → Stage D
enrich now rec = (
  ok tt,
  record rec { server_received_at = now; tags = set_tag "adapter_type" rec.adapter_type rec.tags },
)

-- The zero time is 0, and means that the source gave none.
abbrev pub is_future : ℕ → ℕ → Bool
is_future now timestamp = not (leb timestamp 0) && ltb (now + clock_skew_tolerance) timestamp

unfoldable pub validate : {D : Type 0} → Libs D → ℕ → Stage D
validate libs now rec =
    (do
      reject_if (rec.idempotency_key == "") (stage_error "validate" "missing_field")
      reject_if (rec.transaction_ref == "") (stage_error "validate" "missing_field")
      reject_if (rec.source_system == "") (stage_error "validate" "missing_field")
      reject_if (not (matches_tx_ref rec.transaction_ref)) (stage_error "validate" "invalid_format")
      reject_if (ltb max_payload_size (length rec.raw_payload))
          (stage_error "validate" "payload_too_large")
      reject_if (not (rec.currency == "") && not (is_known_currency rec.currency))
          (stage_error "validate" "invalid_currency")
      reject_if (is_future now rec.record_timestamp) (stage_error "validate" "future_timestamp")
      reject_if (not (libs.is_zero rec.amount) && libs.is_negative rec.amount)
          (stage_error "validate" "negative_amount"))
      rec

abbrev pub layouts : List String
layouts =
    "2006-01-02T15:04:05Z07:00" ∷ "2006-01-02T15:04:05.999999999Z07:00" ∷ "2006-01-02T15:04:05"
    ∷ "2006-01-02 15:04:05" ∷ []

abbrev pub or_else : Option ℕ → Option ℕ → Option ℕ
or_else none p = p
or_else (some t) p = some t

-- The loop over the layouts: the first that parses decides.
unfoldable pub first_layout : {D : Type 0} → Libs D → List String → String → Option ℕ
first_layout libs [] s = none
first_layout libs (layout ∷ rest) s = or_else (libs.parse layout s) (first_layout libs rest s)

unfoldable pub parse_timestamp : {D : Type 0} → Libs D → String → Option ℕ
unfolding first_layout
parse_timestamp libs s = first_layout libs layouts s

-- Extra fields fill in the tags that are not there.
unfoldable pub merge_extra : Tags → Tags → Tags
merge_extra [] tags = tags
merge_extra ((k, v) ∷ extra) tags =
    merge_extra extra (if is_none (find tag_key k tags) then set_tag k v tags else tags)

abbrev pub with_event_time :
    {D : Type 0} → String → Option ℕ → NormalizedRecord D → NormalizedRecord D
with_event_time raw none rec = record rec { tags = set_tag "raw_event_time" raw rec.tags }
with_event_time raw (some t) rec = record rec { record_timestamp = t }

-- The steps of `Normalize` after the amount, none of which fails.
unfoldable pub with_currency :
    {D : Type 0} → RawIngestPayload → NormalizedRecord D → NormalizedRecord D
unfolding to_upper trim_space
with_currency raw rec =
    if raw.currency == "" then rec else record rec { currency = to_upper (trim_space raw.currency) }

unfoldable pub with_time :
    {D : Type 0} → Libs D → RawIngestPayload → NormalizedRecord D → NormalizedRecord D
unfolding parse_timestamp
with_time libs raw rec =
    if raw.event_time == ""
    then rec
    else with_event_time raw.event_time (parse_timestamp libs raw.event_time) rec

unfoldable pub with_schema :
    {D : Type 0} → RawIngestPayload → NormalizedRecord D → NormalizedRecord D
with_schema raw rec = if raw.schema == "" then rec else record rec { payload_schema = raw.schema }

unfoldable pub with_extra :
    {D : Type 0} → RawIngestPayload → NormalizedRecord D → NormalizedRecord D
unfolding merge_extra
with_extra raw rec = record rec { tags = merge_extra raw.extra rec.tags }

unfoldable pub normalized_fields :
    {D : Type 0} → Libs D → RawIngestPayload → NormalizedRecord D → NormalizedRecord D
unfolding with_currency with_time with_schema with_extra
normalized_fields libs raw rec =
    with_extra raw (with_schema raw (with_time libs raw (with_currency raw rec)))

abbrev pub with_amount : {D : Type 0} → Option D → Stage D
with_amount none rec = (err (stage_error "normalize" "invalid_amount"), rec)
with_amount (some amount) rec = (ok tt, record rec { amount = amount })

abbrev pub set_fields : {D : Type 0} → Libs D → RawIngestPayload → Stage D
set_fields libs raw rec = (ok tt, normalized_fields libs raw rec)

-- The payload's reference counts only where the record has none.
unfoldable pub with_ref : {D : Type 0} → RawIngestPayload → NormalizedRecord D → NormalizedRecord D
with_ref raw rec =
    if rec.transaction_ref == "" && not (raw.transaction_ref == "")
    then record rec { transaction_ref = raw.transaction_ref }
    else rec

abbrev pub with_payload_amount : {D : Type 0} → Libs D → RawIngestPayload → Stage D
with_payload_amount libs raw rec =
    if raw.amount == "" then (ok tt, rec) else with_amount (libs.new_from_string raw.amount) rec

unfoldable pub normalize_payload : {D : Type 0} → Libs D → RawIngestPayload → Stage D
unfolding normalized_fields with_ref
normalize_payload libs raw rec =
    (with_payload_amount libs raw >> set_fields libs raw) (with_ref raw rec)

abbrev pub on_unmarshalled : {D : Type 0} → Libs D → Option RawIngestPayload → Stage D
on_unmarshalled libs none rec =
    (ok tt, record rec { tags = set_tag "parse_warning" "non_json_payload" rec.tags })
on_unmarshalled libs (some raw) rec = normalize_payload libs raw rec

unfoldable pub normalize : {D : Type 0} → Libs D → Stage D
unfolding normalize_payload
normalize libs rec =
    if leb (length rec.raw_payload) 0
    then (ok tt, rec)
    else on_unmarshalled libs (libs.unmarshal rec.raw_payload) rec

-- The pipeline that cmd/main.go builds.
unfoldable pub ingestion_pipeline : {D : Type 0} → Libs D → ℕ → Stage D
unfolding run enrich validate normalize
ingestion_pipeline libs now = run (enrich now ∷ validate libs now ∷ normalize libs ∷ [])
