-- ===== src/Resolution/Strategy/Priority.antt =====
-- strategies.go: the source_priority strategy, and the names of the strategies.
use mathlib.Core.Option.{some-injective}
use reconx.Base.{
  ap, ◌∙◌, Option-cases, sym, inr, inl, Bool-cases, String, Bool, true, false, ◌≡◌, refl, some,
  List, [], ◌∷◌, ◌++◌, arith, ◌==◌, ◌&&◌, not, if◌then◌else◌, map, any, select, All, eq_iff,
}
use reconx.Base.Exec.{ok}
use reconx.Resolution.Tables.{Call, SourceRow, Database, Env}
use reconx.Resolution.Queries.Sources.{distinct, get_present_sources, rows_of}
use reconx.Base.Text.{trim_space}
use reconx.Resolution.Strategy.{
  among, on_priorities, Strategy, source_priority, latest_record, highest_amount, lowest_amount,
  first_submitted, Resolved, resolve, parse_strategy, strategy_name, first_present, split_and_trim,
}

-- The name of a strategy parses to it.
parse_strategy-strategy_name : (s : Strategy) → parse_strategy (strategy_name s) ≡ some s
unfolding parse_strategy
parse_strategy-strategy_name source_priority = refl
parse_strategy-strategy_name latest_record = refl
parse_strategy-strategy_name highest_amount = refl
parse_strategy-strategy_name lowest_amount = refl
parse_strategy-strategy_name first_submitted = refl

any-select_ne :
    (a c : String) (xs : List String)
    → any (λ s. s == c) (select (λ t. not (t == a)) xs)
      ≡ (if a == c then false else any (λ s. s == c) xs)
any-select_ne a c [] = ground arith
any-select_ne a c (x ∷ xs) =
    ground (arith, eq_iff x a, eq_iff x c, eq_iff a c, any-select_ne a c xs)

any-distinct :
    (c : String) (xs : List String) → any (λ s. s == c) (distinct xs) ≡ any (λ s. s == c) xs
unfolding distinct
any-distinct c [] = refl
any-distinct c (x ∷ xs) =
    ground (arith, eq_iff x c, any-select_ne x c (distinct xs), any-distinct c xs)

-- Some row of the transaction comes from the source.
abbrev pub has_source : String → Database → String → Bool
has_source tx_ref db c =
    any (λ r. r.transaction_ref == tx_ref && r.source_system == c) db.ingestion_records

any-sources :
    (tx_ref c : String) (rows : List SourceRow)
    → any
        (λ s. s == c)
        (map (λ (r : SourceRow). r.source_system) (select (λ r. r.transaction_ref == tx_ref) rows))
      ≡ any (λ r. r.transaction_ref == tx_ref && r.source_system == c) rows
any-sources tx_ref c [] = refl
any-sources tx_ref c (r ∷ rows) =
    ground
      (arith, eq_iff r.transaction_ref tx_ref, eq_iff r.source_system c, any-sources tx_ref c rows)

-- The list of priorities, split at the chosen one.
pub record IsChosen (wanted : String → Bool) (priorities : List String) (c : String) : Type 0 where
  pub earlier : List String
  pub later : List String
  pub split : priorities ≡ earlier ++ (c ∷ later)
  pub unwanted : All (λ s. wanted s ≡ false) earlier
  pub is_wanted : wanted c ≡ true

first_present-IsChosen :
    (present : List String) (wanted : String → Bool) (priorities : List String) (c : String)
    → ((s : String) → any (λ t. t == s) present ≡ wanted s)
    → first_present present priorities ≡ some c
    → IsChosen wanted priorities c
unfolding first_present
first_present-IsChosen present wanted [] c same e = absurd (cc)
first_present-IsChosen present wanted (p ∷ ps) c same e =
    elim (Bool-cases (any (λ t. t == p) present)) [
      | inl here ↦
          let is_c : p ≡ c = some-injective p c (rw here at e) in
          record {
            earlier = [];
            later = ps;
            split = rw is_c;
            unwanted = tt;
            is_wanted = rw (← is_c) (sym (same p) ∙ here);
          }
      | inr missing ↦
          let r = first_present-IsChosen present wanted ps c same (rw missing at e) in
          record {
            earlier = p ∷ r.earlier;
            later = r.later;
            split = ap (λ t. p ∷ t) r.split;
            unwanted = (sym (same p) ∙ missing, r.unwanted);
            is_wanted = r.is_wanted;
          }
    ]

by_priority-IsChosen :
    (quote : String → String) (env : Env) (tx_ref : String) (db : Database)
    (list present : List String) (wanted : String → Bool) (r : Resolved)
    → ((s : String) → any (λ t. t == s) present ≡ wanted s)
    → (among quote env tx_ref list present db).0 ≡ ok r
    → IsChosen wanted list r.chosen_source
by_priority-IsChosen quote env tx_ref db list [] wanted r same e = absurd (cc)
by_priority-IsChosen quote env tx_ref db list (p ∷ ps) wanted r same e =
    elim (Option-cases (first_present (p ∷ ps) list)) [
      | inl missing ↦ absurd (let k = rw missing at e in cc)
      | inr (c, found) ↦
          let k = rw found at e in
          let is_c : c ≡ r.chosen_source = cc in
          first_present-IsChosen (p ∷ ps) wanted list r.chosen_source same (rw (← is_c) found)
    ]

on_priorities-IsChosen :
    (quote : String → String) (env : Env) (tx_ref : String) (db : Database) (list : List String)
    (r : Resolved)
    → (on_priorities quote env tx_ref list db).0 ≡ ok r
    → IsChosen (has_source tx_ref db) list r.chosen_source
unfolding get_present_sources
on_priorities-IsChosen quote env tx_ref db [] r e = absurd (cc)
on_priorities-IsChosen quote env tx_ref db (c ∷ cs) r e =
    elim (Bool-cases (env.fails Call.present)) [
      | inl lost ↦ absurd (let k = rw lost at e in cc)
      | inr read ↦
          by_priority-IsChosen quote env tx_ref db (c ∷ cs)
            (distinct (map (λ (x : SourceRow). x.source_system) (rows_of tx_ref db)))
            (has_source tx_ref db) r
            (λ s.
              any-distinct s (map (λ (x : SourceRow). x.source_system) (rows_of tx_ref db))
              ∙ any-sources tx_ref s db.ingestion_records)
            (rw read at e)
    ]

-- source_priority chooses the first name of the list from which the transaction has a row: every
-- earlier name has none.
pub priority_winner :
    (quote : String → String) (env : Env) (tx_ref priorities : String) (db : Database)
    (r : Resolved)
    → (resolve quote env tx_ref source_priority priorities db).0 ≡ ok r
    → IsChosen (has_source tx_ref db) (split_and_trim priorities) r.chosen_source
unfolding resolve
priority_winner quote env tx_ref priorities db r e =
    elim (Bool-cases (trim_space priorities == "")) [
      | inl blank ↦ absurd (let k = rw blank at e in cc)
      | inr given ↦
          on_priorities-IsChosen quote env tx_ref db (split_and_trim priorities) r (rw given at e)
    ]
