-- ===== src/Ingestion/Examples/Adapting.antt =====
-- The theorems on the adapters, the rate limiter, the adapter queue and the gauges, at concrete inputs.
use mathlib.Core.Option.{some-injective}
use reconx.Base.{
  subst, ℕ, ◌*◌, ◌-◌, ◌<◌, ◌≤◌, true, false, ◌≡◌, refl, ◌⊎◌, inr, Option, none, some, List, [], ◌∷◌,
  length, All, ltb, arith,
}
use reconx.Base.Int.{pos}
use reconx.Base.Table.{find}
use reconx.Ingestion.Server.{consume_adapter_queue}
use reconx.Ingestion.Delivered.{received, IsDelivered, serve_webhook_delivers, start-IsDelivered}
use reconx.Ingestion.Server.Grows.{IsBacked}
use reconx.Ingestion.Server.Drained.{IsKept}
use reconx.Ingestion.Adapters.{Codec, Run}
use reconx.Ingestion.Adapters.Lines.{non_empty, unlines}
use reconx.Ingestion.Adapters.Queueing.{records_from}
use reconx.Ingestion.Adapters.Webhook.{
  WebhookRequest, max_body, read_all, webhook_record, serve_webhook,
}
use reconx.Ingestion.Adapters.File.{file_record, parse_ndjson}
use reconx.Ingestion.Adapters.Accepted.{items_of, serve_webhook_accepts, parse_ndjson-unlines}
use reconx.Ingestion.Adapters.Kafka.{Message, Fetch, fetched, fetch_failed, Consumer, start}
use reconx.Ingestion.Adapters.Cells.{text_value, time_value}
use reconx.Ingestion.Adapters.DbPoll.{Rows, Poller, tick, stamps, scanned_rows, db_record}
use reconx.Ingestion.Adapters.DbPoll.Watermark.{tick-watermark}
use reconx.Ingestion.RateLimit.{Rates, Limiter}
use reconx.Ingestion.RateLimit.Sources.{
  Op, request, limit, bucket_of, run_all, run_one, run_all-run_one,
}
use reconx.Ingestion.Examples.{libs, env, empty}

abbrev codec : Codec
codec = record {
  partial_of = λ _. record { idempotency_key = "k7"; transaction_ref = "T7"; source_system = "" };
  raw_items = λ _. none;
  marshal_row = λ _. [];
  read_csv = λ _. [];
}

abbrev no_amount : ℕ
no_amount = 0

abbrev calm : Run
calm = record { cancelled = λ _. false; new_uuid = λ _. "u" }

abbrev hook : WebhookRequest
hook = record {
  method = "POST";
  source_system = "shop";
  source_header = "";
  trace_header = "t1";
  body = 123 ∷ 125 ∷ [];
  breaks = false;
}

serve_webhook_accepts_example :
    (bytes : List ℕ) × (read_all (max_body 0) hook ≡ some bytes)
    × ((items_of codec bytes).1 ≡ none)
    × ((serve_webhook codec no_amount 0 calm "u0" hook []).0.queued
        ≡ some (length (items_of codec bytes).0, "t1"))
    × ((serve_webhook codec no_amount 0 calm "u0" hook []).1
        ≡ records_from calm (webhook_record codec no_amount "shop" "t1") 0 (items_of codec bytes).0)
unfolding serve_webhook
serve_webhook_accepts_example = serve_webhook_accepts codec no_amount 0 calm "u0" hook [] refl

abbrev text : List (List ℕ)
text = (123 ∷ 125 ∷ []) ∷ [] ∷ (91 ∷ []) ∷ []

parse_ndjson-unlines_example :
    ((parse_ndjson codec no_amount calm "bank" (unlines text) []).error ≡ none)
    × ((parse_ndjson codec no_amount calm "bank" (unlines text) []).count ≡ 2)
    × ((parse_ndjson codec no_amount calm "bank" (unlines text) []).queue
        ≡ records_from calm (file_record codec no_amount "bank") 0 (non_empty text))
parse_ndjson-unlines_example =
    parse_ndjson-unlines codec no_amount calm "bank" text []
      (
        (
          omega arith,
          (
            ((λ e. omega arith), (λ e. omega arith)),
            (((λ e. omega arith), (λ e. omega arith)), tt),
          ),
        ),
        ((omega arith, tt), ((omega arith, (((λ e. omega arith), (λ e. omega arith)), tt)), tt)),
      )
      (λ n. refl)

abbrev message : Message
message = record {
  topic = "payments";
  partition = 0;
  offset = 7;
  key = "k9";
  value = 123 ∷ 125 ∷ [];
  headers = [];
}

abbrev fetches : List Fetch
fetches =
    fetch_failed
    ∷ fetched message "u" true true
    ∷ fetched (record message { value = [] }) "u" true true
    ∷ fetched message "u" false true
    ∷ []

abbrev idle : Consumer ℕ
idle = record { queue = []; committed = [] }

abbrev rows : Rows
rows = record {
  columns = "id" ∷ "updated_at" ∷ [];
  scans =
      some (text_value "r1" ∷ time_value 12 "" ∷ [])
      ∷ none
      ∷ some (text_value "r2" ∷ time_value 15 "" ∷ [])
      ∷ [];
  error = none;
}

abbrev poller : Poller ℕ
poller = record { watermark = 10; queue = [] }

tick-watermark_example :
    ((tick no_amount (λ _. []) "erp" "updated_at" calm (λ _. some rows) poller).watermark ≡ 10)
    ⊎ ((10 < (tick no_amount (λ _. []) "erp" "updated_at" calm (λ _. some rows) poller).watermark)
        × (r : Rows) × (Path (Option Rows) (some rows) (some r))
        × All
            (λ t.
              t
              ≤ (tick no_amount
                  (λ _. [])
                  "erp"
                  "updated_at"
                  calm
                  (λ _. some rows)
                  poller).watermark)
            (stamps no_amount (λ _. []) "erp" "updated_at" r.columns r.scans)
        × ((tick no_amount (λ _. []) "erp" "updated_at" calm (λ _. some rows) poller).queue
            ≡ records_from calm
                (db_record no_amount (λ _. []) "erp" "updated_at")
                0
                (scanned_rows r.columns r.scans)))
unfolding tick
tick-watermark_example =
    tick-watermark no_amount (λ _. []) "erp" "updated_at" calm (λ _. some rows) poller
      λ r e.
        subst
          (λ (x : Rows).
            All (λ t. (t ≡ 0) ⊎ (10 < t))
              (stamps no_amount (λ _. []) "erp" "updated_at" x.columns x.scans))
          (some-injective rows r e) (inr (omega arith), (inr (omega arith), tt))

abbrev rates : Rates ℕ ℕ
rates = record {
  ten_times = λ rps. pos (rps * 10);
  new_limiter = λ rps burst. burst;
  take_token = λ now tokens. (ltb 0 tokens, tokens - 1);
}

abbrev ops : List (Op ℕ)
ops = request 1 "erp" ∷ limit "shop" 0 ∷ request 2 "shop" ∷ request 3 "shop" ∷ request 4 "erp" ∷ []

abbrev limiter : Limiter ℕ ℕ
limiter = record { limiters = []; defaults = 5 }

run_all-run_one_example :
    ((run_all rates "shop" ops limiter).0
      ≡ (run_one rates "shop" ops (bucket_of rates limiter "shop")).0)
    × (bucket_of rates (run_all rates "shop" ops limiter).1 "shop"
        ≡ (run_one rates "shop" ops (bucket_of rates limiter "shop")).1)
run_all-run_one_example = run_all-run_one rates "shop" ops limiter

no_reply : IsBacked empty
unfolding find
no_reply k a e = absurd cc

serve_webhook_delivers_example :
    (bytes : List ℕ) × (read_all (max_body 0) hook ≡ some bytes)
    × All
        (λ r. IsKept r (
          consume_adapter_queue libs 10
            (received (env ∷ []) (serve_webhook codec no_amount 0 calm "u0" hook []).1)
            empty))
        (records_from calm (webhook_record codec no_amount "shop" "t1") 0 (items_of codec bytes).0)
unfolding serve_webhook
serve_webhook_delivers_example =
    serve_webhook_delivers libs 10 codec (env ∷ []) empty 0 calm "u0" hook [] refl refl
      ((refl, refl), tt) no_reply

start-IsDelivered_example :
    All
      (IsDelivered libs 10 codec
        (env ∷ [])
        empty
        (λ _. "0")
        "erp"
        (consume_adapter_queue libs 10
          (received (env ∷ []) (start codec no_amount (λ _. "0") "erp" fetches idle).queue)
          empty))
      (start codec no_amount (λ _. "0") "erp" fetches idle).committed
unfolding start
start-IsDelivered_example =
    start-IsDelivered libs 10 codec (env ∷ []) empty (λ _. "0") "erp" fetches idle tt refl
      ((refl, refl), tt) no_reply
