-- ===== src/Resolution/Api/Auto.antt =====
-- handler.go, autoResolve: what a successful call has decided and written, and what a refused one
-- leaves alone.
use mathlib.Core.Option
use reconx.Base.{
  String, false, ◌≡◌, refl, ◌≢◌, Option, none, some, if◌then◌else◌, ◌==◌, Bool-cases, inl, inr,
  eq_refl, ==-false, subst, ap,
}
use reconx.Base.Exec.{◌>>=◌, ok, continue-ok, passed, renamed-ok}
use reconx.Base.Table.{by_key, find, find-modify, find-upsert}
use reconx.Resolution.Tables.{ReconState, ResolutionRecord, Database, Call, Env, scanned-ok}
use reconx.Resolution.Queries.States.{
  state_key, resolution_key, resolution_of, set_resolved, decided_again,
}
use reconx.Resolution.Queries.Decided.{find-decided}
use reconx.Resolution.Strategy.{Strategy, strategy_name, parse_strategy, Resolved, resolve}
use reconx.Resolution.Strategy.Winner.{resolve_reads}
use reconx.Resolution.Manual.{is_unresolvable}
use reconx.Resolution.Manual.Outcome.{status_of, resolution_for}
use reconx.Resolution.Api.{
  ApiConfig, Body, body_or, AutoResolveRequest, AutoResolveResponse, no_request, or_default,
  auto_request, auto_resolve, persist_auto, strategy_or_400,
}

-- The decoded request.
abbrev pub request_of : Body AutoResolveRequest → AutoResolveRequest
request_of Body.malformed = no_request
request_of Body.no_body = no_request
request_of (Body.decoded req) = req

abbrev pub strategy_text : ApiConfig → AutoResolveRequest → String
strategy_text cfg req = or_default req.strategy cfg.default_strategy

abbrev pub priorities : ApiConfig → AutoResolveRequest → String
priorities cfg req = or_default req.source_priority cfg.source_priority

-- The decision that a successful call records.
abbrev pub auto_record : Env → String → Strategy → Resolved → AutoResolveRequest → ResolutionRecord
auto_record env tx_ref strategy result req =
    resolution_of env tx_ref "AUTO" result.chosen_source result.reason
      (or_default req.resolver_id "system:api") (strategy_name strategy)

module _ (quote : String → String) (cfg : ApiConfig) (env : Env) (tx_ref : String) where
  -- What lets a request through.
  pub record IsDecided (req : AutoResolveRequest) (db : Database) : Type 0 where
    pub readable : env.fails Call.get_state ≡ false
    pub state : ReconState
    pub found : find state_key tx_ref db.recon_state ≡ some state
    pub resolvable : is_unresolvable state.status ≡ false
    pub strategy : Strategy
    pub parsed : parse_strategy (strategy_text cfg req) ≡ some strategy
    pub result : Resolved
    pub decided : (resolve quote env tx_ref strategy (priorities cfg req) db).0 ≡ ok result
    pub insertable : env.fails Call.insert_resolution ≡ false
    pub updatable : env.fails Call.update_state ≡ false

  strategy_or_400-ok :
      (o : Option Strategy) (db : Database) {s : Strategy}
      → (strategy_or_400 o db).0 ≡ ok s
      → (o ≡ some s) × ((strategy_or_400 o db).1 ≡ db)
  strategy_or_400-ok none db e = cc
  strategy_or_400-ok (some s) db e = (cc, refl)

  persisted :
      (old_status : String) (strategy : Strategy) (resolver_id : String) (result : Resolved)
      (db : Database) {resp : AutoResolveResponse}
      → (persist_auto quote cfg env tx_ref old_status strategy resolver_id result db).0 ≡ ok resp
      → (env.fails Call.insert_resolution ≡ false) × (env.fails Call.update_state ≡ false)
  unfolding persist_auto
  persisted old_status strategy resolver_id result db e =
      let (_, r1, k1) = continue-ok _ _ _ e in
      let (_, r2, k2) = continue-ok _ _ _ k1 in
      ((passed _ _ _ (renamed-ok _ _ r1)).0, (passed _ _ _ (renamed-ok _ _ r2)).0)

  IsDecided-of_ok :
      (req : AutoResolveRequest) (db : Database) {resp : AutoResolveResponse}
      → (auto_request quote cfg env tx_ref req db).0 ≡ ok resp
      → IsDecided req db
  unfolding auto_request
  IsDecided-of_ok req db e =
      let (s, r1, k1) = continue-ok _ _ _ e in
      let (_, r2, k2) = continue-ok _ _ _ k1 in
      let (strategy, r3, k3) = continue-ok _ _ _ k2 in
      let (result, r4, k4) = continue-ok _ _ _ k3 in
      let (readable, scan) = passed _ _ _ (renamed-ok _ _ r1) in
      let (parsed, same_db) = strategy_or_400-ok (parse_strategy (strategy_text cfg req)) db r3 in
      let (insertable, updatable) =
        persisted s.status strategy (or_default req.resolver_id "system:api") result _ k4 in
      record {
        readable = readable;
        state = s;
        found = scanned-ok _ scan;
        resolvable = (passed _ _ _ r2).0;
        strategy = strategy;
        parsed = parsed;
        result = result;
        decided =
            subst (λ d. (resolve quote env tx_ref strategy (priorities cfg req) d).0 ≡ ok result)
              same_db (renamed-ok _ _ r4);
        insertable = insertable;
        updatable = updatable;
      }

  decided_writes :
      (req : AutoResolveRequest) (db : Database) (q : IsDecided req db)
      → (status_of (auto_request quote cfg env tx_ref req db).1 tx_ref ≡ some "RESOLVED")
        × (resolution_for (auto_request quote cfg env tx_ref req db).1 tx_ref
            ≡ some (auto_record env tx_ref q.strategy q.result req))
        × ((k : String)
            → tx_ref ≢ k
            → (find state_key k (auto_request quote cfg env tx_ref req db).1.recon_state
                ≡ find state_key k db.recon_state)
              × (resolution_for (auto_request quote cfg env tx_ref req db).1 k
                  ≡ resolution_for db k))
  unfolding auto_request persist_auto
  decided_writes req db q =
      let row = auto_record env tx_ref q.strategy q.result req in
      rw
        (
          q.readable,
          q.found,
          q.resolvable,
          q.parsed,
          q.decided,
          resolve_reads quote env tx_ref q.strategy (priorities cfg req) db,
          q.insertable,
          q.updatable,
        )
        (
          rw (find-modify state_key tx_ref tx_ref (set_resolved env) db.recon_state (λ s. refl))
              (rw (eq_refl tx_ref, q.found)),
          find-decided row db.resolution_records,
          λ k ne. (
            rw (find-modify state_key tx_ref k (set_resolved env) db.recon_state (λ s. refl))
                (rw (==-false tx_ref k ne)),
            rw
                (find-upsert resolution_key k row (decided_again row) db.resolution_records
                  (λ s. refl))
                (rw (==-false tx_ref k ne)),
          ),
        )

  auto_resolve-request :
      (body : Body AutoResolveRequest) (db : Database) {resp : AutoResolveResponse}
      → (auto_resolve quote cfg env tx_ref body db).0 ≡ ok resp
      → auto_resolve quote cfg env tx_ref body db
        ≡ auto_request quote cfg env tx_ref (request_of body) db
  unfolding auto_resolve
  auto_resolve-request body db {resp = resp} e = elim (Bool-cases (tx_ref == "")) [
    | inl blank ↦ absurd (let k = rw blank at e in cc)
    | inr named ↦ rw named (of_body body (rw named at e))
  ]
    where
      of_body :
          (b : Body AutoResolveRequest)
          → ((body_or no_request b >>= auto_request quote cfg env tx_ref) db).0 ≡ ok resp
          → (body_or no_request b >>= auto_request quote cfg env tx_ref) db
            ≡ auto_request quote cfg env tx_ref (request_of b) db
      of_body Body.malformed h = absurd (cc)
      of_body Body.no_body h = refl
      of_body (Body.decoded req) h = refl

  -- A successful call was for a transaction that is neither PENDING nor MATCHED, under a strategy that
  -- its text (or the default) names; it leaves the transaction RESOLVED, records the strategy's own
  -- decision, and leaves the states and decisions of all other transactions alone.
  pub auto_resolve_lem :
      (body : Body AutoResolveRequest) (db : Database) (resp : AutoResolveResponse) (k : String)
      → (auto_resolve quote cfg env tx_ref body db).0 ≡ ok resp
      → (q : IsDecided (request_of body) db) × (status_of
            (auto_resolve quote cfg env tx_ref body db).1
            k
          ≡ (if tx_ref == k then some "RESOLVED" else status_of db k))
        × (resolution_for (auto_resolve quote cfg env tx_ref body db).1 k ≡ (
            if tx_ref == k
            then some (auto_record env tx_ref q.strategy q.result (request_of body))
            else resolution_for db k))
  auto_resolve_lem body db resp k e =
      let same = auto_resolve-request body db e in
      let q = IsDecided-of_ok (request_of body) db (rw same at e) in
      let (status, row, others) = decided_writes (request_of body) db q in
      let after : Database = (auto_request quote cfg env tx_ref (request_of body) db).1 in
      (
        q,
        rw same (
            by_key (status_of after) (status_of db) tx_ref (some "RESOLVED") k status
              (λ i ne. ap (Option.map (λ (s : ReconState). s.status)) (others i ne).0)),
        rw same (
            by_key (resolution_for after) (resolution_for db) tx_ref
              (some (auto_record env tx_ref q.strategy q.result (request_of body))) k row
              (λ i ne. (others i ne).1)),
      )
