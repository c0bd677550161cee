-- ===== src/Resolution/Examples/Winners.antt =====
-- The theorems on the strategies, at concrete tables.
use reconx.Base.{◌≡◌, refl}
use reconx.Base.Order.{sort, IsFirst}
use reconx.Resolution.Tables.{SourceRow}
use reconx.Resolution.Queries.Sources.{
  latest_first, earliest_first, get_sources_by_latest, get_sources_by_first, get_present_sources,
  distinct,
}
use reconx.Resolution.Strategy.{
  source_priority, latest_record, first_submitted, Resolved, resolve, split_and_trim, join_commas,
}
use reconx.Resolution.Strategy.Priority.{priority_winner, IsChosen, has_source}
use reconx.Resolution.Strategy.Winner.{time_winners, of_ref}
use reconx.Resolution.Examples.{quoted, env, db}

abbrev by_bank : Resolved
by_bank = record {
  chosen_source = "bank";
  strategy = source_priority;
  reason =
      "source_priority: bank is highest-priority source present (priority list: [crm, bank, erp])";
}

priority_winner_example : IsChosen (has_source "T1" db) (split_and_trim "crm, bank,erp") "bank"
unfolding resolve get_present_sources distinct join_commas
priority_winner_example = priority_winner quoted env "T1" "crm, bank,erp" db by_bank refl

abbrev latest : Resolved
latest = record {
  chosen_source = "bank";
  strategy = latest_record;
  reason = "latest_record: bank submitted most recently";
}

abbrev first : Resolved
first = record {
  chosen_source = "erp";
  strategy = first_submitted;
  reason = "first_submitted: erp submitted earliest";
}

time_winners_example :
    ((row : SourceRow) × IsFirst latest_first (of_ref "T1") db.ingestion_records row
      × ("bank" ≡ row.source_system))
    × ((row : SourceRow) × IsFirst earliest_first (of_ref "T1") db.ingestion_records row
        × ("erp" ≡ row.source_system))
unfolding resolve get_sources_by_latest get_sources_by_first sort
time_winners_example = time_winners quoted env "T1" "" db latest first refl refl
