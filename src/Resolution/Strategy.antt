-- ===== src/Resolution/Strategy.antt =====
-- services/resolution/internal/resolver/strategies.go. The texts of reasons are put together by the
-- parameter `quote` (fmt's %q); those of errors are left out.
pub mod Priority
pub mod Winner
use Prim.Native.String.{◌++◌ as str_append}
use reconx.Base.{
  String, Bool, true, false, not, ◌||◌, Option, none, some, List, [], ◌∷◌, ◌==◌, if◌then◌else◌, any,
  map, select,
}
use reconx.Base.Exec.{pure, raise, ◌>>=◌, ◌or_raise◌}
use reconx.Base.Text.{to_lower, trim_space, split_commas}
use reconx.Resolution.Tables.{Env, DbError, no_rows, failed, Db}
use reconx.Resolution.Queries.Sources.{
  get_sources_by_latest, get_sources_by_first, get_source_by_highest_amount,
  get_source_by_lowest_amount, get_present_sources,
}

pub data Strategy : Type 0 where
  source_priority latest_record highest_amount lowest_amount first_submitted : Strategy

-- The value of the constant, `string(strategy)`.
abbrev pub strategy_name : Strategy → String
strategy_name source_priority = "source_priority"
strategy_name latest_record = "latest_record"
strategy_name highest_amount = "highest_amount"
strategy_name lowest_amount = "lowest_amount"
strategy_name first_submitted = "first_submitted"

-- The cases of the `switch`, on the trimmed lower-case text.
unfoldable pub strategy_of : String → Option Strategy
strategy_of s =
    if s == "source_priority"
    then some source_priority
    else if s == "latest_record" || s == "latest" || s == ""
    then some latest_record
    else if s == "highest_amount" || s == "highest"
    then some highest_amount
    else if s == "lowest_amount" || s == "lowest"
    then some lowest_amount
    else if s == "first_submitted" || s == "first"
    then some first_submitted
    else none

unfoldable pub parse_strategy : String → Option Strategy
unfolding strategy_of to_lower trim_space
parse_strategy s = strategy_of (to_lower (trim_space s))

pub record Resolved : Type 0 where
  pub chosen_source : String
  pub strategy : Strategy
  pub reason : String

pub data ResolveError : Type 0 where
  no_priority_config empty_priority_list no_sources strategy_failed query_failed : ResolveError

unfoldable pub split_and_trim : String → List String
unfolding split_commas trim_space
split_and_trim s = select (λ p. not (p == "")) (map trim_space (split_commas s))

-- strings.Join(parts, ", ")
unfoldable pub join_commas : List String → String
join_commas [] = ""
join_commas (p ∷ []) = p
join_commas (p ∷ q ∷ ps) = str_append p (str_append ", " (join_commas (q ∷ ps)))

-- The first candidate of the priority list that is among the present sources.
unfoldable pub first_present : List String → List String → Option String
first_present present [] = none
first_present present (c ∷ cs) =
    if any (λ s. s == c) present then some c else first_present present cs

-- How a strategy reports the error of its query.
abbrev pub missing_is : ResolveError → DbError → ResolveError
missing_is e no_rows = e
missing_is e failed = query_failed

module _ (quote : String → String) (env : Env) (tx_ref : String) where
  abbrev pub reason_of : String → String → String → String
  reason_of before source after = str_append before (str_append (quote source) after)

  abbrev pub by_priority : List String → Option String → Db ResolveError Resolved
  by_priority priority_list none = raise strategy_failed
  by_priority priority_list (some source) = pure (record {
    chosen_source = source;
    strategy = source_priority;
    reason = reason_of "source_priority: " source (
        str_append " is highest-priority source present (priority list: ["
          (str_append (join_commas priority_list) "])"));
  })

  abbrev pub among : List String → List String → Db ResolveError Resolved
  among priority_list [] = raise no_sources
  among priority_list (s ∷ ss) = by_priority priority_list (first_present (s ∷ ss) priority_list)

  abbrev pub on_priorities : List String → Db ResolveError Resolved
  on_priorities [] = raise empty_priority_list
  on_priorities (c ∷ cs) = do
    present ← get_present_sources env tx_ref or_raise missing_is query_failed
    among (c ∷ cs) present

  unfoldable pub resolve_by_source_priority : String → Db ResolveError Resolved
  unfolding split_and_trim first_present
  resolve_by_source_priority priorities =
      if trim_space priorities == ""
      then raise no_priority_config
      else on_priorities (split_and_trim priorities)

  abbrev pub winner : Strategy → String → String → String → Db ResolveError Resolved
  winner strategy before after source = pure (record {
    chosen_source = source;
    strategy = strategy;
    reason = reason_of before source after;
  })

  unfoldable pub resolve_by_latest : Db ResolveError Resolved
  resolve_by_latest = do
    source ← get_sources_by_latest env tx_ref or_raise missing_is no_sources
    winner latest_record "latest_record: " " submitted most recently" source

  unfoldable pub resolve_by_amount : Bool → Db ResolveError Resolved
  resolve_by_amount true = do
    source ← get_source_by_highest_amount env tx_ref or_raise missing_is strategy_failed
    winner highest_amount "highest_amount: " " reports the highest amount" source
  resolve_by_amount false = do
    source ← get_source_by_lowest_amount env tx_ref or_raise missing_is strategy_failed
    winner lowest_amount "lowest_amount: " " reports the lowest amount" source

  unfoldable pub resolve_by_first : Db ResolveError Resolved
  resolve_by_first = do
    source ← get_sources_by_first env tx_ref or_raise missing_is no_sources
    winner first_submitted "first_submitted: " " submitted earliest" source

  -- `Resolve`; its map of parameters holds the source priority alone.
  unfoldable pub resolve : Strategy → String → Db ResolveError Resolved
  unfolding resolve_by_source_priority resolve_by_latest resolve_by_amount resolve_by_first
  resolve source_priority priorities = resolve_by_source_priority priorities
  resolve latest_record priorities = resolve_by_latest
  resolve highest_amount priorities = resolve_by_amount true
  resolve lowest_amount priorities = resolve_by_amount false
  resolve first_submitted priorities = resolve_by_first
