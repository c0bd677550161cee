-- ===== src/Resolution/Queries/States.antt =====
-- db.go: recon_state and resolution_records.
use reconx.Base.{String}
use reconx.Base.Table.{find, modify, upsert}
use reconx.Resolution.Tables.{
  ReconState, ResolutionRecord, Call, Env, DbError, Db, done, written, query_row,
}

abbrev pub state_key : ReconState → String
state_key s = s.transaction_ref

abbrev pub resolution_key : ResolutionRecord → String
resolution_key r = r.transaction_ref

unfoldable pub get_recon_state : Env → String → Db DbError ReconState
get_recon_state env tx_ref =
    query_row env Call.get_state (λ db. find state_key tx_ref db.recon_state)

abbrev pub set_resolved : Env → ReconState → ReconState
set_resolved env s = record s { status = "RESOLVED"; last_updated = env.now }

unfoldable pub update_recon_state_to_resolved : Env → String → Db DbError Unit
update_recon_state_to_resolved env tx_ref db = (
  done env Call.update_state,
  record db {
    recon_state =
        written env Call.update_state db.recon_state
          (modify state_key tx_ref (set_resolved env) db.recon_state);
  },
)

-- The row that is written, also over an older row of the same transaction.
abbrev pub resolution_of :
    Env → String → String → String → String → String → String → ResolutionRecord
resolution_of env tx_ref resolution_type chosen_source reason resolver_id strategy = record {
  transaction_ref = tx_ref;
  resolution_type = resolution_type;
  chosen_source = chosen_source;
  resolution_reason = reason;
  resolver_id = resolver_id;
  strategy = strategy;
  resolved_at = env.now;
}

-- The ON CONFLICT clause: all but the key is taken from the new row.
abbrev pub decided_again : ResolutionRecord → ResolutionRecord → ResolutionRecord
decided_again row old = record row { transaction_ref = old.transaction_ref }

unfoldable pub insert_resolution_record :
    Env → String → String → String → String → String → String → Db DbError Unit
insert_resolution_record env tx_ref resolution_type chosen_source reason resolver_id strategy db =
    let row = resolution_of env tx_ref resolution_type chosen_source reason resolver_id strategy in
    (
      done env Call.insert_resolution,
      record db {
        resolution_records =
            written env Call.insert_resolution db.resolution_records
              (upsert resolution_key row (decided_again row) db.resolution_records);
      },
    )
