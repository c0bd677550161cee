-- ===== src/Ingestion/Adapters/Accepted.antt =====
-- webhook.go and file.go: what an answer says of the queue.
use mathlib.Core.List.{append-nil}
use reconx.Base.{
  ℕ, suc, String, true, false, ◌≡◌, refl, sym, ◌∙◌, ap, ◌⊎◌, inl, inr, Option, none, some, List, [],
  ◌∷◌, ◌++◌, ◌==◌, length, take, All, arith, Bool-cases, Option-cases,
}
use reconx.Ingestion.Pipeline.{NormalizedRecord}
use reconx.Ingestion.Adapters.{
  Codec, Run, AdapterError, context_done, bad_json, Queued, or_uuid, queue_each,
}
use reconx.Ingestion.Adapters.Lines.{scan_lines, non_empty, unlines, IsLine, scan_lines-unlines}
use reconx.Ingestion.Adapters.Queueing.{records_from, IsQueued, queue_each-IsQueued}
use reconx.Ingestion.Adapters.Webhook.{
  reply_to, queue_array, parse_shape, WebhookRequest, Shape, nothing, array, object, lines,
  shape_of, max_token, max_body, read_all, webhook_record, parse_data, parse_and_queue,
  webhook_source, serve_webhook,
}
use reconx.Ingestion.Adapters.File.{file_record, parse_ndjson}
use reconx.Ingestion.Adapters.Rest.{max_buffer}

-- The queue after a loop without an error.
abbrev pub IsComplete :
    {I D : Type 0}
    → Run
    → (String → I → NormalizedRecord D)
    → List I
    → List (NormalizedRecord D)
    → Queued D
    → Type 0
IsComplete run make items queue q =
    (q.count ≡ length items) × (q.queue ≡ queue ++ records_from run make 0 items)

module _ {I D : Type 0} (run : Run) (make : String → I → NormalizedRecord D) where
  take-records :
      (n : ℕ) (items : List I)
      → take (length items) (records_from run make n items) ≡ records_from run make n items
  take-records n [] = refl
  take-records n (item ∷ items) =
      ap (λ t. make (run.new_uuid n) item ∷ t) (take-records (suc n) items)

  IsComplete-of_IsQueued :
      (last : Option AdapterError) (items : List I) (queue : List (NormalizedRecord D))
      (q : Queued D)
      → IsQueued run make last items queue q
      → q.error ≡ none
      → (last ≡ none) × IsComplete run make items queue q
  IsComplete-of_IsQueued last items queue q (queued, inr (stopped, _)) fine = cc
  IsComplete-of_IsQueued last items queue q (queued, inl (same, count)) fine = (
    sym same ∙ fine,
    (
      count,
      queued
          ∙ ap (λ k. queue ++ take k (records_from run make 0 items)) count
          ∙ ap (λ t. queue ++ t) (take-records 0 items),
    ),
  )

module _ (codec : Codec) where
  abbrev array_items : Option (List (List ℕ)) → List (List ℕ) × Option AdapterError
  array_items none = ([], some bad_json)
  array_items (some items) = (items, none)

  abbrev shape_items : Shape → List ℕ → List (List ℕ) × Option AdapterError
  shape_items nothing bytes = ([], none)
  shape_items array bytes = array_items (codec.raw_items bytes)
  shape_items object bytes = (bytes ∷ [], none)
  shape_items lines bytes =
      let (tokens, error) = scan_lines max_token bytes in (non_empty tokens, error)

  -- What a body is taken to hold, by its first byte: nothing, the items of an array, one object, or the
  -- lines that are not empty; and the error that follows.
  unfoldable pub items_of : List ℕ → List (List ℕ) × Option AdapterError
  unfolding shape_of scan_lines
  items_of bytes = shape_items (shape_of bytes) bytes

module _ {D : Type 0} (codec : Codec) (zero_decimal : D) (run : Run) (source trace : String)
    (bytes : List ℕ) (queue : List (NormalizedRecord D)) where
  abbrev IsParsed : List (List ℕ) × Option AdapterError → Queued D → Type 0
  IsParsed (items, last) q =
      IsQueued run (webhook_record codec zero_decimal source trace) last items queue q

  array-IsParsed :
      (found : Option (List (List ℕ)))
      → IsParsed
          (array_items codec found)
          (queue_array codec zero_decimal run source trace found queue)
  array-IsParsed none = (sym (append-nil queue), inl (refl, refl))
  array-IsParsed (some items) =
      queue_each-IsQueued run (webhook_record codec zero_decimal source trace) none items queue

  shape-IsParsed :
      (shape : Shape)
      → IsParsed
          (shape_items codec shape bytes)
          (parse_shape codec zero_decimal shape run source trace bytes queue)
  shape-IsParsed nothing = (sym (append-nil queue), inl (refl, refl))
  shape-IsParsed array = array-IsParsed (codec.raw_items bytes)
  shape-IsParsed object =
      queue_each-IsQueued run (webhook_record codec zero_decimal source trace) none (bytes ∷ [])
        queue
  shape-IsParsed lines =
      queue_each-IsQueued run (webhook_record codec zero_decimal source trace)
        (scan_lines max_token bytes).1 (non_empty (scan_lines max_token bytes).0) queue

  parse_data-IsParsed :
      IsParsed (items_of codec bytes) (parse_data codec zero_decimal run source trace bytes queue)
  unfolding parse_data items_of
  parse_data-IsParsed = shape-IsParsed (shape_of bytes)

module _ {D : Type 0} (codec : Codec) (zero_decimal : D) where
  -- What a webhook answers with 202 is queued whole: the body, up to the limit, is read, it parses, and
  -- the records of its items, one each, are behind what was on the queue; the answer counts them.
  pub serve_webhook_accepts :
      (max_body_bytes : ℕ) (run : Run) (trace_uuid : String) (req : WebhookRequest)
      (queue : List (NormalizedRecord D))
      → (serve_webhook codec zero_decimal max_body_bytes run trace_uuid req queue).0.status ≡ 202
      → (bytes : List ℕ) × (read_all (max_body max_body_bytes) req ≡ some bytes)
        × ((items_of codec bytes).1 ≡ none)
        × ((serve_webhook codec zero_decimal max_body_bytes run trace_uuid req queue).0.queued
            ≡ some (length (items_of codec bytes).0, or_uuid req.trace_header trace_uuid))
        × ((serve_webhook codec zero_decimal max_body_bytes run trace_uuid req queue).1
            ≡ queue
              ++ records_from run
                  (webhook_record codec zero_decimal
                    (webhook_source req)
                    (or_uuid req.trace_header trace_uuid))
                  0
                  (items_of codec bytes).0)
  unfolding serve_webhook parse_and_queue
  serve_webhook_accepts max_body_bytes run trace_uuid req queue e =
      let trace = or_uuid req.trace_header trace_uuid in
      let limit = max_body max_body_bytes in
      elim (Bool-cases (req.method == "POST")) [
        | inr m ↦ absurd (let k : ◌≡◌ {A = ℕ} 405 202 = rw m at e in omega arith)
        | inl m ↦ elim (Bool-cases (webhook_source req == "")) [
          | inl s ↦ absurd (let k : ◌≡◌ {A = ℕ} 400 202 = rw (m, s) at e in omega arith)
          | inr s ↦ elim (Option-cases (read_all limit req)) [
            | inl r ↦ absurd (let k : ◌≡◌ {A = ℕ} 400 202 = rw (m, s, r) at e in omega arith)
            | inr (bytes, r) ↦
                let q : Queued D =
                  parse_data codec zero_decimal run (webhook_source req) trace bytes queue in
                let fine : q.error ≡ none = no_error trace q.error q.count (rw (m, s, r) at e) in
                let (whole, (count, queued)) =
                  IsComplete-of_IsQueued run
                    (webhook_record codec zero_decimal (webhook_source req) trace)
                    (items_of codec bytes).1 (items_of codec bytes).0 queue q
                    (parse_data-IsParsed codec zero_decimal run (webhook_source req) trace bytes
                      queue)
                    fine in
                (bytes, r, whole, rw (m, s, r) (rw fine (rw count)), rw (m, s, r) queued)
          ]
        ]
      ]
    where
      no_error :
          (trace : String) (error : Option AdapterError) (count : ℕ)
          → (reply_to trace error count).status ≡ 202
          → error ≡ none
      no_error trace none count h = refl
      no_error trace (some x) count h = absurd (omega arith)

  -- A text of lines, none of which fills the buffer or holds a \n or \r, is queued line by line: one
  -- record for each line that is not empty, in their order, where the context is never done.
  pub parse_ndjson-unlines :
      (run : Run) (source : String) (text : List (List ℕ)) (queue : List (NormalizedRecord D))
      → All (IsLine max_buffer) text
      → ((n : ℕ) → run.cancelled n ≡ false)
      → ((parse_ndjson codec zero_decimal run source (unlines text) queue).error ≡ none)
        × ((parse_ndjson codec zero_decimal run source (unlines text) queue).count
            ≡ length (non_empty text))
        × ((parse_ndjson codec zero_decimal run source (unlines text) queue).queue
            ≡ queue ++ records_from run (file_record codec zero_decimal source) 0 (non_empty text))
  unfolding parse_ndjson
  parse_ndjson-unlines run source text queue fits live =
      let make = file_record codec zero_decimal source in
      let q = queue_each run make none 0 (non_empty text) queue in
      let held : IsQueued run make none (non_empty text) queue q =
        queue_each-IsQueued run make none (non_empty text) queue in
      let fine : q.error ≡ none = no_stop q held.1 in
      let (_, (count, queued)) =
        IsComplete-of_IsQueued run make none (non_empty text) queue q held fine in
      rw (scan_lines-unlines max_buffer text fits) (fine, count, queued)
    where
      no_stop :
          (q : Queued D) {n : ℕ}
          → ((q.error ≡ none) × (q.count ≡ n))
            ⊎ ((q.error ≡ some context_done) × (run.cancelled q.count ≡ true))
          → q.error ≡ none
      no_stop q (inl (a, b)) = a
      no_stop q (inr (a, b)) = absurd (let k = live q.count in cc)
