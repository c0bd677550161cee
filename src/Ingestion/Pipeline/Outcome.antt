-- ===== src/Ingestion/Pipeline/Outcome.antt =====
-- pipeline.go and normalize.go: what a run of the whole pipeline accepts.
use reconx.Base.{
  subst, [], ℕ, false, ◌≡◌, ◌≢◌, inl, inr, ◌↔◌, leb, ◌==◌, eq_iff, length, some, List, Bool-cases,
  Option-cases,
}
use reconx.Base.Exec.{ok, continue-ok, ◌>>◌}
use reconx.Ingestion.Pipeline.{
  NormalizedRecord, Libs, RawIngestPayload, enrich, validate, normalize, normalize_payload,
  ingestion_pipeline, run,
}
use reconx.Ingestion.Pipeline.Validity.{IsValid, validate-valid, validate_iff}
use reconx.Ingestion.Pipeline.Kept.{validate-record}

-- A payload whose amount, where it has one, is a decimal.
abbrev pub HasReadableAmount : {D : Type 0} → Libs D → List ℕ → Type 0
HasReadableAmount {D} libs payload =
    (raw : RawIngestPayload)
    → leb (length payload) 0 ≡ false
    → libs.unmarshal payload ≡ some raw
    → raw.amount ≢ ""
    → (d : D) × (libs.new_from_string raw.amount ≡ some d)

module _ {D : Type 0} (libs : Libs D) (now : ℕ) where
  amount_stage_iff :
      (raw : RawIngestPayload) (rec : NormalizedRecord D)
      → ((normalize_payload libs raw rec).0 ≡ ok tt)
        ↔ (raw.amount ≢ "" → (d : D) × (libs.new_from_string raw.amount ≡ some d))
  unfolding normalize_payload
  amount_stage_iff raw rec = elim (Bool-cases (raw.amount == "")) [
    | inl e ↦ (λ _ ne. absurd (ne ((eq_iff raw.amount "").0 e)), λ _. rw e)
    | inr e ↦ elim (Option-cases (libs.new_from_string raw.amount)) [
      | inl q ↦ (
        λ h. absurd (let k = rw (e, q) at h in cc),
        λ h.
            let (d, found) = h (λ t. absurd (let k = rw ((eq_iff raw.amount "").1 t) at e in cc)) in
            cc,
      )
      | inr (d, q) ↦ (λ _ _. (d, q), λ _. rw (e, q))
    ]
  ]

  normalize_iff :
      (rec : NormalizedRecord D)
      → ((normalize libs rec).0 ≡ ok tt) ↔ HasReadableAmount libs rec.raw_payload
  unfolding normalize
  normalize_iff rec = elim (Bool-cases (leb (length rec.raw_payload) 0)) [
    | inl e ↦ (λ _ raw some_bytes _ _. absurd (let k = rw e at some_bytes in cc), λ _. rw e)
    | inr e ↦ elim (Option-cases (libs.unmarshal rec.raw_payload)) [
      | inl q ↦ (λ _ raw _ json _. cc, λ _. rw (e, q))
      | inr (r, q) ↦ (
        λ h raw _ json ne.
            let k : (normalize_payload libs r rec).0 ≡ ok tt = rw (e, q) at h in
            let same : r ≡ raw = cc in
            subst
              (λ (t : RawIngestPayload).
                t.amount ≢ "" → (d : D) × (libs.new_from_string t.amount ≡ some d))
              same ((amount_stage_iff r rec).0 k) ne,
        λ h. rw (e, q) ((amount_stage_iff r rec).1 (h r e q)),
      )
    ]
  ]

  -- The stamps of the first stage are no business of the validation.
  enriched-IsValid :
      (rec : NormalizedRecord D) → IsValid libs now rec ↔ IsValid libs now (enrich now rec).1
  unfolding enrich
  enriched-IsValid rec = (
    λ v. record {
      has_key = v.has_key;
      has_ref = v.has_ref;
      has_source = v.has_source;
      printable = v.printable;
      fits = v.fits;
      currency_known = v.currency_known;
      not_future = v.not_future;
      not_negative = v.not_negative;
    },
    λ v. record {
      has_key = v.has_key;
      has_ref = v.has_ref;
      has_source = v.has_source;
      printable = v.printable;
      fits = v.fits;
      currency_known = v.currency_known;
      not_future = v.not_future;
      not_negative = v.not_negative;
    },
  )

  -- The pipeline accepts exactly the records that are valid before the payload is read and whose
  -- payload has no amount that is not a decimal. The payload's currency, time and sign count for
  -- nothing.
  pub pipeline_iff :
      (rec : NormalizedRecord D)
      → ((ingestion_pipeline libs now rec).0 ≡ ok tt)
        ↔ (IsValid libs now rec × HasReadableAmount libs rec.raw_payload)
  unfolding ingestion_pipeline run enrich
  pipeline_iff rec = (
    λ h.
        let r : NormalizedRecord D = (enrich now rec).1 in
        let (_, valid, k) =
          continue-ok (validate libs now r).0 (λ _. normalize libs >> run [])
            (validate libs now r).1 h in
        let (_, normal, _) =
          continue-ok (normalize libs (validate libs now r).1).0 (λ _. run [])
            (normalize libs (validate libs now r).1).1 k in
        (
          (enriched-IsValid rec).1 ((validate_iff libs now r).0 valid),
          (normalize_iff r).0
              (subst (λ t. (normalize libs t).0 ≡ ok tt) (validate-record libs now r) normal),
        ),
    λ (v, a). rw (
      validate-valid libs now (enrich now rec).1 ((enriched-IsValid rec).0 v),
      (normalize_iff (enrich now rec).1).1 a,
    ),
  )
