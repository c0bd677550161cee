-- ===== src/Resolution/Service/Reading.antt =====
-- handler.go: the handlers that only read.
use reconx.Base.{String, refl, List, [], ◌∷◌, ◌==◌, take, select, length}
use reconx.Base.Int.{ℤ}
use reconx.Base.Order.{sort}
use reconx.Resolution.Tables.{RetryQueueRow, Call, Env, query}
use reconx.Resolution.Queries.Audit.{get_audit_trail}
use reconx.Resolution.Queries.Retries.{get_retry_queue, page_size_of}
use reconx.Resolution.Queries.Mismatches.{
  MismatchedRow, bare_rows, row_key, attach_details, with_details, list_mismatched, is_ref_of,
  by_detail_ref,
}
use reconx.Resolution.Api.{audit_handler, retry_queue_handler, mismatches_handler, page_of}
use reconx.Resolution.Api.Slices.{rows_after}
use reconx.Resolution.Service.Safe.{
  IsSafe, reads-IsSafe, pure-IsSafe, bind-IsSafe, guard-IsSafe, result-IsSafe,
}

pub audit_handler-IsSafe : (env : Env) (tx_ref : String) → IsSafe (audit_handler env tx_ref)
unfolding audit_handler get_audit_trail
audit_handler-IsSafe env tx_ref = guard-IsSafe (tx_ref == "") 400 _ (
    result-IsSafe _ (λ _. 500) _ (reads-IsSafe (get_audit_trail env tx_ref) (λ _. refl))
      λ rows.
        pure-IsSafe (record { transaction_ref = tx_ref; entries = rows; count = length rows }))

pub retry_queue_handler-IsSafe :
    (env : Env) (page_size : ℤ) (page_token status_filter : String)
    → IsSafe (retry_queue_handler env page_size page_token status_filter)
unfolding retry_queue_handler get_retry_queue
retry_queue_handler-IsSafe env page_size page_token status_filter =
    result-IsSafe _ (λ _. 500) _
      (reads-IsSafe (get_retry_queue env page_size page_token status_filter) (λ _. refl))
      λ rows. pure-IsSafe (page_of (λ (r : RetryQueueRow). r.transaction_ref) rows)

with_details-IsSafe : (env : Env) (rows : List MismatchedRow) → IsSafe (with_details env rows)
with_details-IsSafe env [] = pure-IsSafe []
with_details-IsSafe env (r ∷ rs) =
    bind-IsSafe _ _
      (reads-IsSafe
        (query env Call.match_details
          λ db. sort (by_detail_ref env) (select (is_ref_of (r ∷ rs)) db.match_details))
        (λ _. refl))
      λ details. pure-IsSafe (attach_details details (r ∷ rs))

pub mismatches_handler-IsSafe :
    (env : Env) (page_size : ℤ) (page_token source_filter : String)
    → IsSafe (mismatches_handler env page_size page_token source_filter)
unfolding mismatches_handler list_mismatched
mismatches_handler-IsSafe env page_size page_token source_filter =
    result-IsSafe (list_mismatched env page_size page_token source_filter) (λ _. 500) _
      (bind-IsSafe _ _
        (reads-IsSafe
          (query env Call.list_mismatched λ db.
            bare_rows
              (take (page_size_of 20 100 page_size) (rows_after env db page_token source_filter)))
          (λ _. refl))
        (with_details-IsSafe env))
      λ rows. pure-IsSafe (page_of row_key rows)
