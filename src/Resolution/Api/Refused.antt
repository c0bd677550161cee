-- ===== src/Resolution/Api/Refused.antt =====
-- handler.go, autoResolve: what an error leaves of the database.
use reconx.Base.{◌⊎◌, ℕ, String, ◌≡◌, refl, ◌≢◌, ◌==◌, Bool-cases, Option-cases, inl, inr}
use reconx.Base.Exec.{◌>>=◌, Result, ok, err}
use reconx.Base.Table.{find}
use reconx.Resolution.Tables.{Database, Call, Env}
use reconx.Resolution.Queries.States.{state_key}
use reconx.Resolution.Strategy.{Strategy, parse_strategy, Resolved, resolve}
use reconx.Resolution.Strategy.Winner.{resolve_reads}
use reconx.Resolution.Manual.{is_unresolvable}
use reconx.Resolution.Api.{
  ApiConfig, Body, body_or, AutoResolveRequest, no_request, or_default, auto_request, auto_resolve,
  persist_auto,
}

module _ (quote : String → String) (cfg : ApiConfig) (env : Env) (tx_ref : String) where
  Result-cases : {E A : Type 0} (r : Result E A) → ((a : A) × (r ≡ ok a)) ⊎ ((e : E) × (r ≡ err e))
  Result-cases (ok a) = inl (a, refl)
  Result-cases (err e) = inr (e, refl)

  persist_500 :
      (old_status : String) (strategy : Strategy) (resolver_id : String) (result : Resolved)
      (db : Database) (c : ℕ)
      → (persist_auto quote cfg env tx_ref old_status strategy resolver_id result db).0 ≡ err c
      → c ≡ 500
  unfolding persist_auto
  persist_500 old_status strategy resolver_id result db c e =
      elim (Bool-cases (env.fails Call.insert_resolution)) [
        | inl e1 ↦ let k = rw e1 at e in cc
        | inr e1 ↦ elim (Bool-cases (env.fails Call.update_state)) [
          | inl e2 ↦ let k = rw (e1, e2) at e in cc
          | inr e2 ↦ absurd (let k = rw (e1, e2) at e in cc)
        ]
      ]

  request_refused :
      (req : AutoResolveRequest) (db : Database) (c : ℕ)
      → (auto_request quote cfg env tx_ref req db).0 ≡ err c
      → c ≢ 500
      → (auto_request quote cfg env tx_ref req db).1 ≡ db
  unfolding auto_request
  request_refused req db c e ne = elim (Bool-cases (env.fails Call.get_state)) [
    | inl e1 ↦ rw e1
    | inr e1 ↦ elim (Option-cases (find state_key tx_ref db.recon_state)) [
      | inl e2 ↦ rw (e1, e2)
      | inr (s, e2) ↦ elim (Bool-cases (is_unresolvable s.status)) [
        | inl e3 ↦ rw (e1, e2, e3)
        | inr e3 ↦
            elim (Option-cases (parse_strategy (or_default req.strategy cfg.default_strategy))) [
              | inl e4 ↦ rw (e1, e2, e3, e4)
              | inr (strategy, e4) ↦
                  let prio = or_default req.source_priority cfg.source_priority in
                  let reads = resolve_reads quote env tx_ref strategy prio db in
                  elim (Result-cases (resolve quote env tx_ref strategy prio db).0) [
                    | inr (x, e5) ↦ rw (e1, e2, e3, e4, e5, reads)
                    | inl (result, e5) ↦ absurd (
                        ne (
                          persist_500 s.status strategy (or_default req.resolver_id "system:api")
                            result db c (rw (e1, e2, e3, e4, e5, reads) at e)))
                  ]
            ]
      ]
    ]
  ]

  -- A call that is refused for any reason but a failed statement (400, 404, 409 or 422) leaves the
  -- database as it was.
  pub auto_resolve_refused :
      (body : Body AutoResolveRequest) (db : Database) (c : ℕ)
      → (auto_resolve quote cfg env tx_ref body db).0 ≡ err c
      → c ≢ 500
      → (auto_resolve quote cfg env tx_ref body db).1 ≡ db
  unfolding auto_resolve
  auto_resolve_refused body db c e ne = elim (Bool-cases (tx_ref == "")) [
    | inl blank ↦ rw blank
    | inr named ↦ rw named (of_body body (rw named at e))
  ]
    where
      of_body :
          (b : Body AutoResolveRequest)
          → ((body_or no_request b >>= auto_request quote cfg env tx_ref) db).0 ≡ err c
          → ((body_or no_request b >>= auto_request quote cfg env tx_ref) db).1 ≡ db
      of_body Body.malformed h = refl
      of_body Body.no_body h = request_refused no_request db c h ne
      of_body (Body.decoded req) h = request_refused req db c h ne
