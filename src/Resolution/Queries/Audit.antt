-- ===== src/Resolution/Queries/Audit.antt =====
-- db.go: recon_audit_log, which is only appended to.
use reconx.Base.{String, Bool, some, List, [], ◌∷◌, ◌++◌, leb, ◌==◌, select}
use reconx.Base.Order.{sort}
use reconx.Resolution.Tables.{AuditLogRow, Value, Call, Env, DbError, Db, done, written, query}

abbrev pub entry_of : Env → String → String → String → String → List (String × Value) → AuditLogRow
entry_of env tx_ref event_type old_status new_status detail = record {
  transaction_ref = tx_ref;
  event_type = event_type;
  old_status = some old_status;
  new_status = some new_status;
  details = detail;
  created_at = env.now;
}

unfoldable pub insert_audit_log :
    Env → String → String → String → String → List (String × Value) → Db DbError Unit
insert_audit_log env tx_ref event_type old_status new_status detail db = (
  done env (Call.audit event_type),
  record db {
    audit_log =
        written env (Call.audit event_type) db.audit_log
          (db.audit_log ++ entry_of env tx_ref event_type old_status new_status detail ∷ []);
  },
)

abbrev pub before : AuditLogRow → AuditLogRow → Bool
before a b = leb a.created_at b.created_at

unfoldable pub get_audit_trail : Env → String → Db DbError (List AuditLogRow)
get_audit_trail env tx_ref =
    query env Call.audit_trail
      λ db. sort before (select (λ r. r.transaction_ref == tx_ref) db.audit_log)
