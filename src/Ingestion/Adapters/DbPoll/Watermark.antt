-- ===== src/Ingestion/Adapters/DbPoll/Watermark.antt =====
-- services/ingestion/internal/adapters/db.go: what a tick makes of the watermark and the queue.
use reconx.Base.{
  ◌∙◌, ap, Option-cases, sym, subst, ℕ, suc, ◌≤◌, ◌<◌, String, false, ◌≡◌, refl, ◌⊎◌, inl, inr,
  Option, none, some, List, [], ◌∷◌, ◌++◌, leb, All, arith, Bool-cases,
}
use mathlib.Core.List.{append-nil, append_assoc}
use reconx.Ingestion.Adapters.Cells.{Value, row_map}
use reconx.Ingestion.Pipeline.{NormalizedRecord}
use reconx.Ingestion.Adapters.Queueing.{records_from}
use reconx.Ingestion.Adapters.{AdapterError, Run}
use reconx.Ingestion.Adapters.DbPoll.{
  later, Polled, Rows, Poller, stamp, db_record, poll_rows, advanced, tick, stamps, scanned_rows,
}

later_newer :
    (old latest t : ℕ)
    → (latest ≡ 0) ⊎ (old < latest)
    → (t ≡ 0) ⊎ (old < t)
    → (later latest t ≡ 0) ⊎ (old < later latest t)
later_newer old latest t e h = ground arith

module _ {D : Type 0} (zero_decimal : D) (marshal : List (String × Value) → List ℕ)
    (source watermark_column : String) where
  -- The watermark of a poll is behind no time of a row that it scanned, nor behind its start.
  abbrev IsAhead : ℕ → List ℕ → Polled D → Type 0
  IsAhead latest times p = (latest ≤ p.watermark) × All (λ t. t ≤ p.watermark) times

  poll_rows-step :
      (run : Run) (cols : List String) (last : Option AdapterError) (n latest : ℕ)
      (vals : List Value) (scans : List (Option (List Value))) (queue : List (NormalizedRecord D))
      → run.cancelled n ≡ false
      → poll_rows zero_decimal marshal source watermark_column run cols last n latest
          (some vals ∷ scans)
          queue
        ≡ poll_rows zero_decimal marshal source watermark_column run cols last
            (suc n)
            (later latest
              (stamp zero_decimal marshal source watermark_column (row_map cols vals [])))
            scans
            (queue
              ++ db_record zero_decimal marshal source watermark_column
                  (run.new_uuid n)
                  (row_map cols vals [])
                ∷ [])
  unfolding poll_rows
  poll_rows-step run cols last n latest vals scans queue c = rw c

  poll_rows-IsAhead :
      (run : Run) (cols : List String) (last : Option AdapterError) (n latest : ℕ)
      (scans : List (Option (List Value))) (queue : List (NormalizedRecord D))
      → (poll_rows zero_decimal marshal source watermark_column run cols last n latest scans
          queue).error
        ≡ none
      → IsAhead latest (stamps zero_decimal marshal source watermark_column cols scans) (
          poll_rows zero_decimal marshal source watermark_column run cols last n latest scans queue)
  unfolding poll_rows
  poll_rows-IsAhead run cols last n latest [] queue e = (omega arith, tt)
  poll_rows-IsAhead run cols last n latest (none ∷ scans) queue e =
      poll_rows-IsAhead run cols last n latest scans queue e
  poll_rows-IsAhead run cols last n latest (some vals ∷ scans) queue e =
      elim (Bool-cases (run.cancelled n)) [
        | inl c ↦ absurd (let k = rw c at e in cc)
        | inr c ↦
            let (bound, bounds) =
              poll_rows-IsAhead run cols last (suc n)
                (later latest
                  (stamp zero_decimal marshal source watermark_column (row_map cols vals [])))
                scans
                (queue
                  ++ db_record zero_decimal marshal source watermark_column (run.new_uuid n)
                      (row_map cols vals [])
                    ∷ [])
                (rw c at e) in
            subst
              (IsAhead latest
                (stamps zero_decimal marshal source watermark_column cols (some vals ∷ scans)))
              (sym (poll_rows-step run cols last n latest vals scans queue c))
              (ground (arith, bound), (ground (arith, bound), bounds))
      ]

  poll_rows-newer :
      (run : Run) (cols : List String) (last : Option AdapterError) (old n latest : ℕ)
      (scans : List (Option (List Value))) (queue : List (NormalizedRecord D))
      → (latest ≡ 0) ⊎ (old < latest)
      → All
          (λ t. (t ≡ 0) ⊎ (old < t))
          (stamps zero_decimal marshal source watermark_column cols scans)
      → ((poll_rows zero_decimal marshal source watermark_column run cols last n latest scans
            queue).watermark
          ≡ 0)
        ⊎ (old
            < (poll_rows zero_decimal marshal source watermark_column run cols last n latest scans
                queue).watermark)
  unfolding poll_rows
  poll_rows-newer run cols last old n latest [] queue e h = e
  poll_rows-newer run cols last old n latest (none ∷ scans) queue e h =
      poll_rows-newer run cols last old n latest scans queue e h
  poll_rows-newer run cols last old n latest (some vals ∷ scans) queue e h =
      let t = stamp zero_decimal marshal source watermark_column (row_map cols vals []) in
      let next : (later latest t ≡ 0) ⊎ (old < later latest t) = later_newer old latest t e h.0 in
      elim (Bool-cases (run.cancelled n)) [
        | inl c ↦ rw c next
        | inr c ↦
            subst (λ (p : Polled D). (p.watermark ≡ 0) ⊎ (old < p.watermark))
              (sym (poll_rows-step run cols last n latest vals scans queue c))
              (poll_rows-newer run cols last old (suc n) (later latest t) scans
                (queue
                  ++ db_record zero_decimal marshal source watermark_column (run.new_uuid n)
                      (row_map cols vals [])
                    ∷ [])
                next h.1)
      ]

  poll_rows-queue :
      (run : Run) (cols : List String) (last : Option AdapterError) (n latest : ℕ)
      (scans : List (Option (List Value))) (queue : List (NormalizedRecord D))
      → (poll_rows zero_decimal marshal source watermark_column run cols last n latest scans
          queue).error
        ≡ none
      → (poll_rows zero_decimal marshal source watermark_column run cols last n latest scans
          queue).queue
        ≡ queue
          ++ records_from run
              (db_record zero_decimal marshal source watermark_column)
              n
              (scanned_rows cols scans)
  unfolding poll_rows
  poll_rows-queue run cols last n latest [] queue e = sym (append-nil queue)
  poll_rows-queue run cols last n latest (none ∷ scans) queue e =
      poll_rows-queue run cols last n latest scans queue e
  poll_rows-queue run cols last n latest (some vals ∷ scans) queue e =
      let row = row_map cols vals [] in
      elim (Bool-cases (run.cancelled n)) [
        | inl c ↦ absurd (let k = rw c at e in cc)
        | inr c ↦
            ap (λ (p : Polled D). p.queue)
              (poll_rows-step run cols last n latest vals scans queue c)
            ∙ poll_rows-queue run cols last (suc n)
                (later latest (stamp zero_decimal marshal source watermark_column row)) scans
                (queue
                  ++ db_record zero_decimal marshal source watermark_column (run.new_uuid n) row
                    ∷ [])
                (rw c at e)
            ∙ append_assoc queue
                (db_record zero_decimal marshal source watermark_column (run.new_uuid n) row ∷ []) _
      ]

  advanced-cases :
      (p : Polled D) (old : ℕ)
      → (p.watermark ≡ 0) ⊎ (old < p.watermark)
      → (advanced p old ≡ old)
        ⊎ ((p.error ≡ none) × (old < advanced p old) × (advanced p old ≡ p.watermark))
  advanced-cases p old h = elim (Option-cases p.error) [
    | inr (e, failed) ↦ inl (rw failed)
    | inl fine ↦ elim h [
      | inl zero_time ↦ inl (rw (fine, zero_time))
      | inr after ↦
          let moved : leb p.watermark 0 ≡ false = ground arith in
          inr (fine, rw (fine, moved) after, rw (fine, moved))
    ]
  ]

  -- Where the query returns only rows whose time is after the watermark that it is given, or that have
  -- no time, a tick leaves the watermark or moves it forward; and where it moves it, the records of all
  -- the rows that it scanned are on the queue, and none of these rows has a time after the watermark.
  pub tick-watermark :
      (run : Run) (query : ℕ → Option Rows) (poller : Poller D)
      → ((rows : Rows)
          → query poller.watermark ≡ some rows
          → All
              (λ t. (t ≡ 0) ⊎ (poller.watermark < t))
              (stamps zero_decimal marshal source watermark_column rows.columns rows.scans))
      → ((tick zero_decimal marshal source watermark_column run query poller).watermark
          ≡ poller.watermark)
        ⊎ ((poller.watermark
              < (tick zero_decimal marshal source watermark_column run query poller).watermark)
            × (rows : Rows) × (query poller.watermark ≡ some rows)
            × All
                (λ t.
                  t
                  ≤ (tick zero_decimal marshal source watermark_column run query poller).watermark)
                (stamps zero_decimal marshal source watermark_column rows.columns rows.scans)
            × ((tick zero_decimal marshal source watermark_column run query poller).queue
                ≡ poller.queue
                  ++ records_from run
                      (db_record zero_decimal marshal source watermark_column)
                      0
                      (scanned_rows rows.columns rows.scans)))
  unfolding tick
  tick-watermark run query poller newer = elim (Option-cases (query poller.watermark)) [
    | inl e ↦ inl (rw e)
    | inr (rows, e) ↦
        let p =
          poll_rows zero_decimal marshal source watermark_column run rows.columns rows.error 0 0
            rows.scans poller.queue in
        elim (advanced-cases p poller.watermark (
          poll_rows-newer run rows.columns rows.error poller.watermark 0 0 rows.scans poller.queue
            (inl refl) (newer rows e))) [
              | inl same ↦ inl (rw e same)
              | inr (fine, ahead, moved) ↦ inr (
                rw e ahead,
                rows,
                e,
                rw e (
                    subst
                      (λ w.
                        All (λ t. t ≤ w)
                          (stamps zero_decimal marshal source watermark_column rows.columns
                            rows.scans))
                      (sym moved)
                      (poll_rows-IsAhead run rows.columns rows.error 0 0 rows.scans poller.queue
                        fine).1),
                rw e (poll_rows-queue run rows.columns rows.error 0 0 rows.scans poller.queue fine),
              )
            ]
  ]
