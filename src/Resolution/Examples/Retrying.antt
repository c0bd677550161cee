-- ===== src/Resolution/Examples/Retrying.antt =====
-- The theorems on the retry queue and its worker, at a concrete entry.
use reconx.Base.{ℕ, ◌+◌, ◌*◌, ◌^◌, ◌-◌, suc, ◌≡◌, refl, true, false, some, none, [], ◌∷◌, arith}
use Prim.Native.Nat.{min}
use reconx.Base.Order.{sort}
use reconx.Base.Table.{find}
use reconx.Proto.{mismatched}
use reconx.Resolution.Tables.{Database, RetryQueueRow}
use reconx.Resolution.Queries.States.{state_key}
use reconx.Resolution.Queries.Retries.{with_status, due}
use reconx.Resolution.Worker.{Engine, RetryConfig, AutoResolveConfig, next_retry_time, retry_one}
use reconx.Resolution.Strategy.{latest_record, parse_strategy, resolve, Resolved}
use reconx.Resolution.Queries.Sources.{get_sources_by_latest}
use reconx.Resolution.Manual.Outcome.{status_of, resolution_for}
use reconx.Resolution.Worker.Exhausted.{worker_record, retry_one-applies}
use reconx.Resolution.Worker.{start}
use reconx.Resolution.Worker.Idle.{Keeps, start-Keeps}
use reconx.Base.{Memᴰ}
use reconx.Base.Order.{sort}
use reconx.Resolution.Queries.Retries.{get_pending_retries}
use reconx.Resolution.Worker.{run_cycle}
use reconx.Resolution.Worker.Stepped.{run_cycle-row}
use reconx.Resolution.Worker.Backoff.{next_retry_time_lem}
use reconx.Resolution.Worker.Attempt.{QueueWorks, row_of, next_entry}
use reconx.Resolution.Worker.Schedule.{
  IsAttempted, attempts, unreachable_never_exhausts, mismatched_exhausts,
}
use reconx.Resolution.Api.{Body, EnqueueRetryResponse, enqueue_handler, enqueue_request}
use reconx.Resolution.Api.Enqueue.{enqueue_resolved_never_due}
use reconx.Resolution.Examples.{
  ReconState, quoted, env, db, t1, entry, done_entry, done_db, api_config, retry_request,
}

abbrev retry_config : RetryConfig
retry_config = record {
  enabled = true;
  poll_interval_secs = 30;
  max_attempts = 5;
  base_backoff_secs = 30;
  max_backoff_secs = 3600;
  batch_size = 50;
}

abbrev auto_config : AutoResolveConfig
auto_config = record {
  default_strategy = "latest_record";
  source_priority = "";
  auto_apply_on_exhaustion = false;
}

abbrev mismatching : Engine
mismatching tx_ref d = (some mismatched, d)

abbrev unreachable : Engine
unreachable tx_ref d = (none, d)

next_retry_time_lem_example :
    next_retry_time retry_config env 3 ≡ 100 + min (30 * 2 ^ (3 - 1)) 3600 * 1000000000
next_retry_time_lem_example = next_retry_time_lem retry_config env 3 (omega arith)

abbrev works : QueueWorks env
works = record { increments = refl; exhausts = refl; resolves = refl }

unreachable_never_exhausts_example :
    (row : RetryQueueRow) × IsAttempted entry 7 row
    × (row_of (attempts quoted unreachable retry_config auto_config (λ _. env) "T1" 7 db) "T1"
        ≡ some row)
unreachable_never_exhausts_example =
    unreachable_never_exhausts quoted unreachable retry_config auto_config refl (λ _. env)
      (λ _. works) (λ _ _. refl) "T1" entry db refl (unfold find in refl) 7 (λ _. refl)

mismatched_exhausts_example :
    ((row : RetryQueueRow) × IsAttempted entry 1 row
      × (row_of (attempts quoted mismatching retry_config auto_config (λ _. env) "T1" 1 db) "T1"
          ≡ some row))
    × ((row : RetryQueueRow) × (row.status ≡ "EXHAUSTED")
        × (row_of
              (attempts quoted mismatching retry_config auto_config (λ _. env) "T1" (suc 1) db)
              "T1"
            ≡ some row))
mismatched_exhausts_example =
    mismatched_exhausts quoted mismatching retry_config auto_config refl (λ _. env) (λ _. works)
      (λ _ _. refl) "T1" entry db refl (unfold find in refl) 1 1 (λ _. refl) refl (omega arith)

abbrev response : EnqueueRetryResponse
response = record { transaction_ref = "T1"; max_attempts = 3 }

enqueue_resolved_never_due_example :
    ((state : ReconState) × (find state_key "T1" done_db.recon_state ≡ some state)
      × (state.status ≡ "MISMATCHED"))
    × ((row : RetryQueueRow) × (row_of
            (enqueue_handler api_config env "T1" (Body.decoded retry_request) done_db).1
            "T1"
          ≡ some row)
        × (row.status ≡ "RESOLVED")
        × (row.attempt_count ≡ done_entry.attempt_count)
        × ((now : ℕ) → due now row ≡ false))
unfolding enqueue_handler enqueue_request
enqueue_resolved_never_due_example =
    enqueue_resolved_never_due api_config env "T1" (Body.decoded retry_request) done_db response
      done_entry (unfold find in refl) (unfold find in refl) refl

abbrev applying : AutoResolveConfig
applying = record auto_config { auto_apply_on_exhaustion = true }

abbrev last_entry : RetryQueueRow
last_entry = record entry { attempt_count = 1 }

abbrev last_db : Database
last_db = record db { retry_queue = last_entry ∷ [] }

abbrev latest : Resolved
latest = record {
  chosen_source = "bank";
  strategy = latest_record;
  reason = "latest_record: bank submitted most recently";
}

retry_one-applies_example :
    (status_of (retry_one quoted mismatching retry_config applying env last_entry last_db).1 "T1"
      ≡ some "RESOLVED")
    × (resolution_for
          (retry_one quoted mismatching retry_config applying env last_entry last_db).1
          "T1"
        ≡ some (worker_record env "T1" latest))
    × (row_of (retry_one quoted mismatching retry_config applying env last_entry last_db).1 "T1"
        ≡ some (with_status "RESOLVED" last_entry))
unfolding parse_strategy resolve get_sources_by_latest sort
retry_one-applies_example =
    retry_one-applies quoted mismatching retry_config applying env
      (record { exhausts = refl; inserts = refl; updates = refl; resolves = refl }) last_entry
      latest_record latest last_db last_db t1 refl refl refl refl refl (unfold find in refl)
      (unfold find in refl)

abbrev given_up : RetryQueueRow
given_up = record entry { transaction_ref = "T2"; status = "EXHAUSTED" }

abbrev two_entries : Database
two_entries = record db { retry_queue = entry ∷ given_up ∷ [] }

start-Keeps_example :
    Keeps "T2" given_up
      (start quoted mismatching retry_config applying
        ((env, (λ _. env), (λ _. false)) ∷ (env, (λ _. env), (λ _. false)) ∷ [])
        two_entries).retry_queue
unfolding find
start-Keeps_example =
    start-Keeps quoted mismatching retry_config applying "T2" given_up (λ _ _. refl)
      ((env, (λ _. env), (λ _. false)) ∷ (env, (λ _. env), (λ _. false)) ∷ []) two_entries
      (refl, (refl, tt)) ((refl, (refl, tt)), refl)

run_cycle-row_example :
    (i : ℕ) × (row_of
        (run_cycle quoted mismatching retry_config auto_config env
          (λ _. env)
          (λ _. false)
          two_entries)
        "T1"
      ≡ some (next_entry retry_config env entry (some mismatched)))
unfolding get_pending_retries sort find
run_cycle-row_example =
    run_cycle-row quoted mismatching retry_config auto_config refl (λ _. env) (λ _. works)
      (λ _ _. refl) entry (some mismatched) (λ _. refl) env (entry ∷ []) two_entries
      (refl, (refl, tt)) refl (Memᴰ.head refl)
