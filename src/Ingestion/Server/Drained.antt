-- ===== src/Ingestion/Server/Drained.antt =====
-- cmd/main.go, consumeAdapterQueue, with server.go behind it: nothing that the adapters queue is lost.
use reconx.Base.{
  String, true, false, ◌≡◌, refl, sym, subst, ◌⊎◌, inl, inr, Option, none, some, List, [], ◌∷◌,
  Bool-cases, Option-cases, ℕ, All, Memᴰ, Mem-left, Mem-last,
}
use reconx.Base.Exec.{Result, ok, err, Result-cases}
use reconx.Base.Table.{find}
use reconx.Ingestion.Pipeline.{NormalizedRecord, Libs, StageError, ingestion_pipeline}
use reconx.Ingestion.Pipeline.Kept.{pipeline-Keeps}
use reconx.Ingestion.Stores.{
  idempotency_key, record_key, IdempotencyRow, Record, Entry, Tables, Env, Call, insert_record,
  enqueue, get_response, CachedResponse, StoreError,
}
use reconx.Ingestion.Server.{
  IngestRequest, submit_record, process, on_processed, on_stored, on_cached, proto_to_record,
  source_of, stored, cached_success, dead_letter, normalized_to_proto, consume_adapter_queue,
}
use reconx.Ingestion.Server.Accounted.{IsStored, insert_record-ok, submit_record-accounted}
use reconx.Ingestion.Server.Grows.{
  Grows, Grows-refl, Grows-trans, insert_record-Grows, set_response-Grows, enqueue-Grows, IsBacked,
  set_response-IsBacked,
}

-- A step that grows the tables and keeps every cached reply backed by a record.
abbrev pub IsStep : (before after : Tables) → Type 0
IsStep before after = Grows before after × (IsBacked before → IsBacked after)

-- Where the replies stay as they are, growing is enough.
same_replies :
    {before after : Tables}
    → Grows before after
    → after.idempotency ≡ before.idempotency
    → IsStep before after
same_replies g same = (
  g,
  λ h k a e.
      let (r, found) = h k a (subst (λ i. find idempotency_key k i ≡ some a) same e) in
      (r, g.records_stay k r found),
)

module _ {D : Type 0} (libs : Libs D) (ttl : ℕ) where
  on_stored-IsStep :
      (env : Env) (req : IngestRequest) (rec : NormalizedRecord D) (result : Result StoreError Unit)
      (tables : Tables)
      → (result ≡ ok tt → IsStored req tables)
      → IsStep tables (on_stored libs ttl env req rec result tables).1
  on_stored-IsStep env req rec (ok _) tables found =
      let (r, f) = found refl in
      (
        set_response-Grows env ttl req.idempotency_key (source_of req.metadata)
            (cached_success env rec.internal_id) tables,
        set_response-IsBacked env ttl req.idempotency_key (source_of req.metadata)
            (cached_success env rec.internal_id) tables r f,
      )
  on_stored-IsStep env req rec (err e) tables found =
      same_replies (enqueue-Grows env (dead_letter env rec "storage" "db_error") tables)
        (unfold enqueue in refl)

  on_processed-IsStep :
      (env : Env) (req : IngestRequest) (result : Result StageError Unit) (rec : NormalizedRecord D)
      (tables : Tables)
      → rec.idempotency_key ≡ req.idempotency_key
      → IsStep tables (on_processed libs ttl env req result rec tables).1
  on_processed-IsStep env req (ok _) rec tables same =
      let inserted = (insert_record env (stored libs rec) tables).1 in
      let (g, b) =
        same_replies (insert_record-Grows env (stored libs rec) tables)
          (unfold insert_record in refl) in
      let (g', b') =
        on_stored-IsStep env req rec (insert_record env (stored libs rec) tables).0 inserted λ e.
          let (r, f) = insert_record-ok libs ttl env (stored libs rec) tables e in
          (r, subst (λ k. find record_key k inserted.records ≡ some r) same f) in
      (Grows-trans g g', λ h. b' (b h))
  on_processed-IsStep env req (err e) rec tables same =
      same_replies (enqueue-Grows env (dead_letter env rec e.stage e.reason) tables)
        (unfold enqueue in refl)

  on_cached-IsStep :
      (env : Env) (req : IngestRequest) (cached : Result StoreError CachedResponse)
      (tables : Tables)
      → IsStep tables (on_cached libs ttl env req cached tables).1
  unfolding process
  on_cached-IsStep env req (ok c) tables = (Grows-refl tables, λ h. h)
  on_cached-IsStep env req (err e) tables =
      let (result, rec) = ingestion_pipeline libs env.now (proto_to_record libs env req) in
      let (_, same_key, _, _, _, _) = pipeline-Keeps libs env.now (proto_to_record libs env req) in
      on_processed-IsStep env req result rec tables (unfold proto_to_record in same_key)

  pub submit_record-IsStep :
      (env : Env) (req : IngestRequest) (tables : Tables)
      → IsStep tables (submit_record libs ttl env req tables).1
  unfolding submit_record
  submit_record-IsStep env req tables = elim (Bool-cases (env.allow (source_of req.metadata))) [
    | inl e ↦ rw e (on_cached-IsStep env req (get_response env req.idempotency_key tables).0 tables)
    | inr e ↦ rw e (Grows-refl tables, λ h. h)
  ]

-- The record's key is among the records, or the dead letter queue has an entry with its key, its source
-- and its bytes.
abbrev pub IsKept : {D : Type 0} → NormalizedRecord D → Tables → Type 0
IsKept rec tables =
    ((r : Record) × (find record_key rec.idempotency_key tables.records ≡ some r))
    ⊎ ((e : Entry) × Memᴰ e tables.dlq
        × (e.idempotency_key ≡ rec.idempotency_key)
        × (e.source_system ≡ rec.source_system)
        × (e.raw_payload ≡ rec.raw_payload))

pub IsKept-Grows :
    {D : Type 0} (rec : NormalizedRecord D) {before after : Tables}
    → Grows before after
    → IsKept rec before
    → IsKept rec after
IsKept-Grows rec g (inl (r, found)) = inl (r, g.records_stay rec.idempotency_key r found)
IsKept-Grows rec g (inr (e, m, k, s, b)) =
    inr (e, subst (Memᴰ e) (sym g.letters) (Mem-left g.added m), k, s, b)

-- The rate limiter lets the record's source through, and the dead letter queue can be written.
abbrev pub IsServed : {D : Type 0} → Env × Option (NormalizedRecord D) → Type 0
IsServed (env, none) = Unit
IsServed (env, some rec) = (env.allow rec.source_system ≡ true) × (env.fails Call.add_entry ≡ false)

abbrev pub IsDrained : {D : Type 0} → Tables → Env × Option (NormalizedRecord D) → Type 0
IsDrained tables (env, none) = Unit
IsDrained tables (env, some rec) = IsKept rec tables

pub live-found :
    (env : Env) (key : String) (tables : Tables) (c : CachedResponse)
    → (get_response env key tables).0 ≡ ok c
    → (a : IdempotencyRow) × (find idempotency_key key tables.idempotency ≡ some a)
unfolding get_response
live-found env key tables c e = elim (Bool-cases (env.fails Call.get_key)) [
  | inl q ↦ absurd (let k = rw q at e in cc)
  | inr q ↦ elim (Option-cases (find idempotency_key key tables.idempotency)) [
    | inr found ↦ found
    | inl f ↦ absurd (let k = rw (q, f) at e in cc)
  ]
]

module _ {D : Type 0} (libs : Libs D) (ttl : ℕ) where
  pub submit_record-IsKept :
      (env : Env) (rec : NormalizedRecord D) (tables : Tables)
      → IsBacked tables
      → env.allow rec.source_system ≡ true
      → env.fails Call.add_entry ≡ false
      → IsKept rec (submit_record libs ttl env (normalized_to_proto rec) tables).1
  unfolding normalized_to_proto
  submit_record-IsKept env rec tables backed allowed works =
      let req = normalized_to_proto rec in
      elim (Result-cases (get_response env req.idempotency_key tables).0) [
        | inl (c, e) ↦
            let (a, f) = live-found env req.idempotency_key tables c e in
            IsKept-Grows rec (submit_record-IsStep libs ttl env req tables).0
              (inl (backed req.idempotency_key a f))
        | inr (x, e) ↦ elim (submit_record-accounted libs ttl env req tables x allowed e works) [
          | inl is_stored ↦ inl is_stored
          | inr (letter, added, k, s, b) ↦
              inr (letter, subst (Memᴰ letter) (sym added) (Mem-last letter tables.dlq), k, s, b)
        ]
      ]

  drained_lem :
      (queue : List (Env × Option (NormalizedRecord D))) (tables : Tables)
      → All IsServed queue
      → IsBacked tables
      → Grows tables (consume_adapter_queue libs ttl queue tables)
        × All (IsDrained (consume_adapter_queue libs ttl queue tables)) queue
  unfolding consume_adapter_queue
  drained_lem [] tables served backed = (Grows-refl tables, tt)
  drained_lem ((env, none) ∷ rest) tables served backed =
      let (g, h) = drained_lem rest tables served.1 backed in (g, (tt, h))
  drained_lem ((env, some rec) ∷ rest) tables served backed =
      let after = (submit_record libs ttl env (normalized_to_proto rec) tables).1 in
      let (grown, keeps) = submit_record-IsStep libs ttl env (normalized_to_proto rec) tables in
      let (g, h) = drained_lem rest after served.1 (keeps backed) in
      (
        Grows-trans grown g,
        (IsKept-Grows rec g (submit_record-IsKept env rec tables backed served.0.0 served.0.1), h),
      )

  -- When the adapter queue is drained, every record that was on it has its key among the records, or
  -- an entry of the dead letter queue with its key, source and bytes; where the rate limiter lets each
  -- record through, the dead letter queue can be written, and each reply that was cached before stands
  -- for a stored record.
  pub consume_adapter_queue-IsDrained :
      (queue : List (Env × Option (NormalizedRecord D))) (tables : Tables)
      → All IsServed queue
      → IsBacked tables
      → All (IsDrained (consume_adapter_queue libs ttl queue tables)) queue
  consume_adapter_queue-IsDrained queue tables served backed =
      (drained_lem queue tables served backed).1
