-- ===== src/Resolution/Service/Settling.antt =====
-- db.go: InsertResolutionRecord and, after it, UpdateReconStateToResolved.
use mathlib.Core.List.{append-nil}
use text.Mathlib.TextEquality.{eq_iff}
use reconx.Base.{String, ◌≡◌, refl, sym, ◌∙◌, subst, List, [], ◌∷◌, All, Bool-cases, inl, inr, ◌==◌}
use reconx.Base.Exec.{◌>>◌, ◌or_raise◌}
use reconx.Base.Table.{upsert-IsKeyed, modify, upsert, find-upsert}
use reconx.Resolution.Tables.{ReconState, ResolutionRecord, Call, Env, DbError, Db}
use reconx.Resolution.Queries.States.{
  state_key, resolution_key, set_resolved, resolution_of, decided_again, insert_resolution_record,
  update_recon_state_to_resolved,
}
use reconx.Resolution.Queries.Decided.{find-decided}
use reconx.Resolution.Service.Safe.{IsDecided, Grows, Grows-refl, Grows-trans, IsSafe}

IsDecided-upsert :
    (row : ResolutionRecord) (rows : List ResolutionRecord) (k : String)
    → IsDecided rows k
    → IsDecided (upsert resolution_key row (decided_again row) rows) k
IsDecided-upsert row rows k (old, found) = elim (Bool-cases (row.transaction_ref == k)) [
  | inl e ↦
      subst (IsDecided (upsert resolution_key row (decided_again row) rows))
        ((eq_iff row.transaction_ref k).0 e) (row, find-decided row rows)
  | inr e ↦
      (old, find-upsert resolution_key k row (decided_again row) rows (λ _. refl) ∙ rw e found)
]

more-IsBacked :
    (old new : List ResolutionRecord) (states : List ReconState)
    → ((k : String) → IsDecided old k → IsDecided new k)
    → All (λ s. s.status ≡ "RESOLVED" → IsDecided old s.transaction_ref) states
    → All (λ s. s.status ≡ "RESOLVED" → IsDecided new s.transaction_ref) states
more-IsBacked old new [] grows b = tt
more-IsBacked old new (s ∷ ss) grows b = (λ r. grows _ (b.0 r), more-IsBacked old new ss grows b.1)

-- Transactions of which one becomes RESOLVED, over decisions that have it.
settled-IsBacked :
    (env : Env) (tx_ref : String) (old new : List ResolutionRecord) (states : List ReconState)
    → ((k : String) → IsDecided old k → IsDecided new k)
    → IsDecided new tx_ref
    → All (λ s. s.status ≡ "RESOLVED" → IsDecided old s.transaction_ref) states
    → All
        (λ s. s.status ≡ "RESOLVED" → IsDecided new s.transaction_ref)
        (modify state_key tx_ref (set_resolved env) states)
unfolding modify
settled-IsBacked env tx_ref old new [] grows d b = tt
settled-IsBacked env tx_ref old new (s ∷ ss) grows d b =
    elim (Bool-cases (s.transaction_ref == tx_ref)) [
      | inl e ↦ rw e (
        λ _. subst (IsDecided new) (sym ((eq_iff s.transaction_ref tx_ref).0 e)) d,
        settled-IsBacked env tx_ref old new ss grows d b.1,
      )
      | inr e ↦ rw e (λ r. grows _ (b.0 r), settled-IsBacked env tx_ref old new ss grows d b.1)
    ]

-- The two writes of a resolution: the decision first, and the state only where that succeeded.
pub settle-IsSafe :
    {E A : Type 0} (env : Env)
    (tx_ref resolution_type chosen_source reason resolver_id strategy : String) (f g : DbError → E)
    (m : Db E A)
    → IsSafe m
    → IsSafe (
        (insert_resolution_record env tx_ref resolution_type chosen_source reason resolver_id
            strategy
          or_raise f)
        >> ((update_recon_state_to_resolved env tx_ref or_raise g) >> m))
unfolding insert_resolution_record update_recon_state_to_resolved
settle-IsSafe env tx_ref resolution_type chosen_source reason resolver_id strategy f g m h =
    record {
      at = λ s.
          let row =
            resolution_of env tx_ref resolution_type chosen_source reason resolver_id strategy in
          let new : List ResolutionRecord =
            upsert resolution_key row (decided_again row) s.resolution_records in
          let keyed =
            upsert-IsKeyed resolution_key row (decided_again row) s.resolution_records
              (λ _. refl) in
          let grown : Grows s (record s { resolution_records = new }) = record {
            log = ([], sym (append-nil _));
            decided = IsDecided-upsert row s.resolution_records;
            distinct = λ d. record { queue = d.queue; decisions = keyed d.decisions };
            backed = λ b. more-IsBacked _ new s.recon_state (IsDecided-upsert row _) b;
          } in
          let settled : Grows s (record s {
            resolution_records = new;
            recon_state = modify state_key tx_ref (set_resolved env) s.recon_state;
          }) =
            record {
              log = ([], sym (append-nil _));
              decided = IsDecided-upsert row s.resolution_records;
              distinct = λ d. record { queue = d.queue; decisions = keyed d.decisions };
              backed = λ b.
                  settled-IsBacked env tx_ref _ new s.recon_state
                    (IsDecided-upsert row s.resolution_records)
                    (row, find-decided row s.resolution_records) b;
            } in
          elim (Bool-cases (env.fails Call.insert_resolution)) [
            | inl e ↦ rw e (Grows-refl s)
            | inr e ↦ elim (Bool-cases (env.fails Call.update_state)) [
              | inl u ↦ rw (e, u) grown
              | inr u ↦ rw (e, u) (Grows-trans settled (h.at _))
            ]
          ];
    }
