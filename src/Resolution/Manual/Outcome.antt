-- ===== src/Resolution/Manual/Outcome.antt =====
-- server.go, ResolveManually: when it succeeds and what it writes.
use mathlib.Core.Option
use reconx.Base.{
  refl, ==-false, ne-of_false, ◌||◌, Bool, false, eq_refl, ◌≢◌, String, true, false, ◌≡◌, ◌↔◌, ap,
  Option, some, [], ◌∷◌, ◌++◌, ◌==◌, if◌then◌else◌,
}
use reconx.Base.Exec.{Result, ok, continue-ok, passed, renamed-ok}
use reconx.Base.Table.{by_key, find, modify, upsert, find-modify, find-upsert}
use reconx.Proto.{Code, resolved}
use reconx.Resolution.Tables.{
  ReconState, ResolutionRecord, RetryQueueRow, Database, Call, Env, scanned-ok,
}
use reconx.Resolution.Queries.States.{
  set_resolved, decided_again, state_key, resolution_key, resolution_of,
}
use reconx.Resolution.Queries.Audit.{entry_of}
use reconx.Resolution.Queries.Decided.{find-decided}
use reconx.Resolution.Queries.Retries.{with_status, retry_key}
use reconx.Resolution.Manual.{
  ResolutionRequest, ResolutionResponse, resolve_manually, is_unresolvable, manual_details,
}

abbrev pub manual_record : Env → ResolutionRequest → ResolutionRecord
manual_record env req =
    resolution_of env req.transaction_ref "MANUAL" req.chosen_source req.resolution_reason
      req.resolver_id ""

abbrev pub status_of : Database → String → Option String
status_of db k = Option.map (λ (s : ReconState). s.status) (find state_key k db.recon_state)

abbrev pub resolution_for : Database → String → Option ResolutionRecord
resolution_for db k = find resolution_key k db.resolution_records

abbrev pub queue_status : Database → String → Option String
queue_status db k = Option.map (λ (r : RetryQueueRow). r.status) (find retry_key k db.retry_queue)

-- What lets a manual resolution through: a complete request for a transaction that exists and is
-- neither PENDING nor MATCHED, on a database whose three needed calls succeed.
pub record IsAccepted (env : Env) (req : ResolutionRequest) (db : Database) : Type 0 where
  pub has_ref : req.transaction_ref ≢ ""
  pub has_source : req.chosen_source ≢ ""
  pub has_resolver : req.resolver_id ≢ ""
  pub readable : env.fails Call.get_state ≡ false
  pub insertable : env.fails Call.insert_resolution ≡ false
  pub updatable : env.fails Call.update_state ≡ false
  pub state : ReconState
  pub found : find state_key req.transaction_ref db.recon_state ≡ some state
  pub not_pending : state.status ≢ "PENDING"
  pub not_matched : state.status ≢ "MATCHED"

-- The database that an accepted request leaves. The last two writes are made where their calls
-- succeed, and their failure is not reported.
abbrev pub resolved_db : Env → ResolutionRequest → String → Database → Database
resolved_db env req old_status db = record db {
  recon_state = modify state_key req.transaction_ref (set_resolved env) db.recon_state;
  resolution_records =
      upsert resolution_key (manual_record env req) (decided_again (manual_record env req))
        db.resolution_records;
  retry_queue =
      if env.fails Call.resolve
      then db.retry_queue
      else modify retry_key req.transaction_ref (with_status "RESOLVED") db.retry_queue;
  audit_log =
      if env.fails (Call.audit "MANUAL_RESOLUTION")
      then db.audit_log
      else db.audit_log
        ++ entry_of env req.transaction_ref "MANUAL_RESOLUTION" old_status "RESOLVED"
            (manual_details req)
          ∷ [];
}

is_unresolvable-false :
    (status : String) → status ≢ "PENDING" → status ≢ "MATCHED" → is_unresolvable status ≡ false
is_unresolvable-false status p m = rw (==-false status "PENDING" p, ==-false status "MATCHED" m)

ne-of_is_unresolvable :
    (status : String) → is_unresolvable status ≡ false → (status ≢ "PENDING") × (status ≢ "MATCHED")
ne-of_is_unresolvable status e = (
  ne-of_false status "PENDING" (either (status == "PENDING") (status == "MATCHED") e).0,
  ne-of_false status "MATCHED" (either (status == "PENDING") (status == "MATCHED") e).1,
)
  where
    either : (a b : Bool) → (a || b) ≡ false → (a ≡ false) × (b ≡ false)
    either true b h = cc
    either false b h = (refl, h)

resolve_manually_lem :
    (env : Env) (req : ResolutionRequest) (db : Database) (a : IsAccepted env req db)
    → resolve_manually env req db ≡ (
      ok (record { success = true; new_status = resolved }),
      resolved_db env req a.state.status db,
    )
unfolding resolve_manually
resolve_manually_lem env req db a = rw (
  ==-false req.transaction_ref "" a.has_ref,
  ==-false req.chosen_source "" a.has_source,
  ==-false req.resolver_id "" a.has_resolver,
  a.readable,
  a.found,
  is_unresolvable-false a.state.status a.not_pending a.not_matched,
  a.insertable,
  a.updatable,
)

pub IsAccepted-of_ok :
    (env : Env) (req : ResolutionRequest) (db : Database) {resp : ResolutionResponse}
    → (resolve_manually env req db).0 ≡ ok resp
    → IsAccepted env req db
unfolding resolve_manually
IsAccepted-of_ok env req db e =
    let (_, r1, k1) = continue-ok _ _ _ e in
    let (_, r2, k2) = continue-ok _ _ _ k1 in
    let (_, r3, k3) = continue-ok _ _ _ k2 in
    let (s, r4, k4) = continue-ok _ _ _ k3 in
    let (_, r5, k5) = continue-ok _ _ _ k4 in
    let (_, r6, k6) = continue-ok _ _ _ k5 in
    let (_, r7, k7) = continue-ok _ _ _ k6 in
    let (readable, scan) = passed _ _ _ (renamed-ok _ _ r4) in
    record {
      has_ref = ne-of_false req.transaction_ref "" (passed _ _ _ r1).0;
      has_source = ne-of_false req.chosen_source "" (passed _ _ _ r2).0;
      has_resolver = ne-of_false req.resolver_id "" (passed _ _ _ r3).0;
      readable = readable;
      insertable = (passed _ _ _ (renamed-ok _ _ r6)).0;
      updatable = (passed _ _ _ (renamed-ok _ _ r7)).0;
      state = s;
      found = scanned-ok _ scan;
      not_pending = (ne-of_is_unresolvable s.status (passed _ _ _ r5).0).0;
      not_matched = (ne-of_is_unresolvable s.status (passed _ _ _ r5).0).1;
    }

-- The server answers with success exactly to the requests that are accepted.
pub resolve_manually_iff :
    (env : Env) (req : ResolutionRequest) (db : Database)
    → ((resolve_manually env req db).0 ≡ ok (record { success = true; new_status = resolved }))
      ↔ IsAccepted env req db
resolve_manually_iff env req db = (
  IsAccepted-of_ok env req db,
  λ a.
      ap (λ (p : Result Code ResolutionResponse × Database). p.0)
        (resolve_manually_lem env req db a),
)

accepted_writes :
    (env : Env) (req : ResolutionRequest) (db : Database) (a : IsAccepted env req db)
    → (status_of (resolve_manually env req db).1 req.transaction_ref ≡ some "RESOLVED")
      × (resolution_for (resolve_manually env req db).1 req.transaction_ref
          ≡ some (manual_record env req))
      × ((k : String)
          → req.transaction_ref ≢ k
          → (find state_key k (resolve_manually env req db).1.recon_state
              ≡ find state_key k db.recon_state)
            × (resolution_for (resolve_manually env req db).1 k ≡ resolution_for db k))
accepted_writes env req db a = rw (resolve_manually_lem env req db a) (
  rw
      (find-modify state_key req.transaction_ref req.transaction_ref (set_resolved env)
        db.recon_state (λ s. refl))
      (rw (eq_refl req.transaction_ref, a.found)),
  find-decided (manual_record env req) db.resolution_records,
  λ k ne. (
    rw (find-modify state_key req.transaction_ref k (set_resolved env) db.recon_state (λ s. refl))
        (rw (==-false req.transaction_ref k ne)),
    rw
        (find-upsert resolution_key k (manual_record env req)
          (decided_again (manual_record env req)) db.resolution_records (λ s. refl))
        (rw (==-false req.transaction_ref k ne)),
  ),
)

-- An accepted request leaves its transaction RESOLVED, with the requested decision on record; the
-- status and the decision of every other transaction are as before.
pub resolve_manually_writes :
    (env : Env) (req : ResolutionRequest) (db : Database) (a : IsAccepted env req db) (k : String)
    → (status_of (resolve_manually env req db).1 k
        ≡ (if req.transaction_ref == k then some "RESOLVED" else status_of db k))
      × (resolution_for (resolve_manually env req db).1 k ≡ (
          if req.transaction_ref == k then some (manual_record env req) else resolution_for db k))
resolve_manually_writes env req db a k =
    let (status, decision, others) = accepted_writes env req db a in
    (
      by_key (status_of (resolve_manually env req db).1) (status_of db) req.transaction_ref
          (some "RESOLVED") k status
          (λ i ne. ap (Option.map (λ (s : ReconState). s.status)) (others i ne).0),
      by_key (resolution_for (resolve_manually env req db).1) (resolution_for db)
          req.transaction_ref (some (manual_record env req)) k decision (λ i ne. (others i ne).1),
    )
