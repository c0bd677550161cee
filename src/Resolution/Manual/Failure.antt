-- ===== src/Resolution/Manual/Failure.antt =====
-- server.go, ResolveManually: what an error leaves behind.
use reconx.Base.{Bool-cases, ◌⊎◌, true, ◌≡◌, inl, inr, Option-cases, ◌==◌}
use reconx.Base.Exec.{err}
use reconx.Base.Table.{find, upsert}
use reconx.Proto.{Code, internal}
use reconx.Resolution.Tables.{Database, Call, Env}
use reconx.Resolution.Queries.States.{decided_again, state_key, resolution_key}
use reconx.Resolution.Manual.{ResolutionRequest, resolve_manually, is_unresolvable}
use reconx.Resolution.Manual.Outcome.{manual_record}

-- Whatever an error is, the states, the retry queue and the audit log are as before; so are the
-- decisions, but where the update of the state failed after the decision was written.
pub resolve_manually_error :
    (env : Env) (req : ResolutionRequest) (db : Database) (c : Code)
    → (resolve_manually env req db).0 ≡ err c
    → ((resolve_manually env req db).1 ≡ db)
      ⊎ ((env.fails Call.update_state ≡ true)
          × (c ≡ internal)
          × ((resolve_manually env req db).1 ≡ record db {
            resolution_records =
                upsert resolution_key
                  (manual_record env req)
                  (decided_again (manual_record env req))
                  db.resolution_records;
          }))
unfolding resolve_manually
resolve_manually_error env req db c e = elim (Bool-cases (req.transaction_ref == "")) [
  | inl e1 ↦ inl (rw e1)
  | inr e1 ↦ elim (Bool-cases (req.chosen_source == "")) [
    | inl e2 ↦ inl (rw (e1, e2))
    | inr e2 ↦ elim (Bool-cases (req.resolver_id == "")) [
      | inl e3 ↦ inl (rw (e1, e2, e3))
      | inr e3 ↦ elim (Bool-cases (env.fails Call.get_state)) [
        | inl e4 ↦ inl (rw (e1, e2, e3, e4))
        | inr e4 ↦ elim (Option-cases (find state_key req.transaction_ref db.recon_state)) [
          | inl e5 ↦ inl (rw (e1, e2, e3, e4, e5))
          | inr (s, e5) ↦ elim (Bool-cases (is_unresolvable s.status)) [
            | inl e6 ↦ inl (rw (e1, e2, e3, e4, e5, e6))
            | inr e6 ↦ elim (Bool-cases (env.fails Call.insert_resolution)) [
              | inl e7 ↦ inl (rw (e1, e2, e3, e4, e5, e6, e7))
              | inr e7 ↦ elim (Bool-cases (env.fails Call.update_state)) [
                | inl e8 ↦ inr (
                  e8,
                  (let k : err internal ≡ err c = rw (e1, e2, e3, e4, e5, e6, e7, e8) at e in cc),
                  rw (e1, e2, e3, e4, e5, e6, e7, e8),
                )
                | inr e8 ↦ absurd (let k = rw (e1, e2, e3, e4, e5, e6, e7, e8) at e in cc)
              ]
            ]
          ]
        ]
      ]
    ]
  ]
]
