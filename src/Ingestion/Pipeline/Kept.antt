-- ===== src/Ingestion/Pipeline/Kept.antt =====
-- pipeline.go: what a run of the stages never changes of a record.
use reconx.Base.{
  subst, [], ℕ, String, Bool, true, false, ◌≡◌, refl, sym, ◌≢◌, inl, inr, ◌∙◌, leb, if◌then◌else◌,
  ◌==◌, eq_iff, length, Option, none, some, Bool-cases,
}
use reconx.Base.Exec.{Result, ok, err, continue, ◌>>◌, reject_if}
use reconx.Ingestion.Pipeline.{
  with_schema, with_currency, with_payload_amount, with_ref, with_extra, with_time,
  NormalizedRecord, Libs, RawIngestPayload, StageError, Stage, enrich, validate, normalize,
  normalize_payload, normalized_fields, on_unmarshalled, with_amount, set_fields,
  ingestion_pipeline, run, with_event_time, parse_timestamp,
}

-- What is kept of a record: its ids and its source, the bytes that were received, and its reference
-- where it has one.
abbrev pub Keeps : {D : Type 0} → (rec rec' : NormalizedRecord D) → Type 0
Keeps rec rec' =
    (rec'.internal_id ≡ rec.internal_id)
    × (rec'.idempotency_key ≡ rec.idempotency_key)
    × (rec'.source_system ≡ rec.source_system)
    × (rec'.adapter_type ≡ rec.adapter_type)
    × (rec'.raw_payload ≡ rec.raw_payload)
    × (rec.transaction_ref ≢ "" → rec'.transaction_ref ≡ rec.transaction_ref)

module _ {D : Type 0} where
  Keeps-all : (rec : NormalizedRecord D) → Keeps rec rec
  Keeps-all rec = (refl, refl, refl, refl, refl, λ _. refl)

  Keeps-trans : (a b c : NormalizedRecord D) → Keeps a b → Keeps b c → Keeps a c
  Keeps-trans a b c (p1, p2, p3, p4, p5, p6) (q1, q2, q3, q4, q5, q6) =
      (q1 ∙ p1, q2 ∙ p2, q3 ∙ p3, q4 ∙ p4, q5 ∙ p5, λ ne. q6 (λ e. ne (sym (p6 ne) ∙ e)) ∙ p6 ne)

  if-Keeps :
      (b : Bool) (a x y : NormalizedRecord D) → Keeps a x → Keeps a y → Keeps a (if b then x else y)
  if-Keeps true a x y p q = p
  if-Keeps false a x y p q = q

  event-Keeps :
      (raw : String) (t : Option ℕ) (rec : NormalizedRecord D)
      → Keeps rec (with_event_time raw t rec)
  event-Keeps raw none rec = Keeps-all rec
  event-Keeps raw (some t) rec = Keeps-all rec

  currency-Keeps :
      (raw : RawIngestPayload) (rec : NormalizedRecord D) → Keeps rec (with_currency raw rec)
  unfolding with_currency
  currency-Keeps raw rec = if-Keeps (raw.currency == "") rec _ _ (Keeps-all rec) (Keeps-all rec)

  time-Keeps :
      (libs : Libs D) (raw : RawIngestPayload) (rec : NormalizedRecord D)
      → Keeps rec (with_time libs raw rec)
  unfolding with_time
  time-Keeps libs raw rec =
      if-Keeps (raw.event_time == "") rec _ _ (Keeps-all rec)
        (event-Keeps raw.event_time (parse_timestamp libs raw.event_time) rec)

  schema-Keeps :
      (raw : RawIngestPayload) (rec : NormalizedRecord D) → Keeps rec (with_schema raw rec)
  unfolding with_schema
  schema-Keeps raw rec = if-Keeps (raw.schema == "") rec _ _ (Keeps-all rec) (Keeps-all rec)

  fields-Keeps :
      (libs : Libs D) (raw : RawIngestPayload) (rec : NormalizedRecord D)
      → Keeps rec (normalized_fields libs raw rec)
  unfolding normalized_fields with_extra
  fields-Keeps libs raw rec =
      let a = with_currency raw rec in
      let b = with_time libs raw a in
      let c = with_schema raw b in
      Keeps-trans rec a c (currency-Keeps raw rec)
        (Keeps-trans a b c (time-Keeps libs raw a) (schema-Keeps raw b))

  ref-Keeps : (raw : RawIngestPayload) (rec : NormalizedRecord D) → Keeps rec (with_ref raw rec)
  unfolding with_ref
  ref-Keeps raw rec = elim (Bool-cases (rec.transaction_ref == "")) [
    | inl e ↦
        if-Keeps _ rec _ _
          (refl, refl, refl, refl, refl, λ ne. absurd (ne ((eq_iff rec.transaction_ref "").0 e)))
          (Keeps-all rec)
    | inr e ↦ rw e (Keeps-all rec)
  ]

  -- The record after a stage.
  amount-Keeps : (d : Option D) (rec : NormalizedRecord D) → Keeps rec (with_amount d rec).1
  amount-Keeps none rec = Keeps-all rec
  amount-Keeps (some d) rec = Keeps-all rec

  payload_amount-Keeps :
      (libs : Libs D) (raw : RawIngestPayload) (rec : NormalizedRecord D)
      → Keeps rec (with_payload_amount libs raw rec).1
  payload_amount-Keeps libs raw rec = elim (Bool-cases (raw.amount == "")) [
    | inl e ↦ rw e (Keeps-all rec)
    | inr e ↦ rw e (amount-Keeps (libs.new_from_string raw.amount) rec)
  ]

  -- Two stages that keep the record do so one after the other.
  then-Keeps :
      (m n : Stage D) (rec : NormalizedRecord D)
      → Keeps rec (m rec).1
      → ((r : NormalizedRecord D) → Keeps r (n r).1)
      → Keeps rec ((m >> n) rec).1
  then-Keeps m n rec p q = by_result (m rec) p
    where
      by_result :
          (r : Result StageError Unit × NormalizedRecord D)
          → Keeps rec r.1
          → Keeps rec (continue r.0 (λ _. n) r.1).1
      by_result (ok _, mid) k = Keeps-trans rec mid (n mid).1 k (q mid)
      by_result (err e, mid) k = k

  normalize-Keeps : (libs : Libs D) (rec : NormalizedRecord D) → Keeps rec (normalize libs rec).1
  unfolding normalize normalize_payload
  normalize-Keeps libs rec = elim (Bool-cases (leb (length rec.raw_payload) 0)) [
    | inl e ↦ rw e (Keeps-all rec)
    | inr e ↦ rw e (of_json (libs.unmarshal rec.raw_payload))
  ]
    where
      of_json : (o : Option RawIngestPayload) → Keeps rec (on_unmarshalled libs o rec).1
      of_json none = Keeps-all rec
      of_json (some raw) =
          Keeps-trans rec (with_ref raw rec) (normalize_payload libs raw rec).1 (ref-Keeps raw rec)
            (then-Keeps (with_payload_amount libs raw) (set_fields libs raw) (with_ref raw rec)
              (payload_amount-Keeps libs raw (with_ref raw rec)) (fields-Keeps libs raw))

  guard-record :
      (b : Bool) (e : StageError) (n : Stage D) (rec : NormalizedRecord D)
      → (n rec).1 ≡ rec
      → ((reject_if b e >> n) rec).1 ≡ rec
  guard-record true e n rec h = refl
  guard-record false e n rec h = h

  -- The validation stage writes nothing.
  pub validate-record :
      (libs : Libs D) (now : ℕ) (rec : NormalizedRecord D) → (validate libs now rec).1 ≡ rec
  unfolding validate
  validate-record libs now rec = search guard-record depth 12

  -- Whether it succeeds or fails, the pipeline keeps the ids of a record, its source, its bytes and
  -- its reference.
  pub pipeline-Keeps :
      (libs : Libs D) (now : ℕ) (rec : NormalizedRecord D)
      → Keeps rec (ingestion_pipeline libs now rec).1
  unfolding ingestion_pipeline run enrich
  pipeline-Keeps libs now rec =
      then-Keeps (validate libs now) (normalize libs >> run []) (enrich now rec).1
        (subst (Keeps rec) (sym (validate-record libs now (enrich now rec).1)) (Keeps-all rec))
        (λ r. then-Keeps (normalize libs) (run []) r (normalize-Keeps libs r) Keeps-all)
