-- ===== src/Gateway/Settled.antt =====
-- handlers.go, resolveManually, with services/resolution behind it: what a client of the gateway learns
-- of a manual resolution. The text that goes with an error's code is a parameter.
use reconx.Base.{
  String, true, ◌≡◌, ◌↔◌, ◌≢◌, ◌⊎◌, inl, inr, some, ◌==◌, Bool-cases, Option-cases, ==-false, arith,
}
use reconx.Base.Exec.{Exec, renamed, Result-cases}
use reconx.Proto.{Code, internal}
use reconx.Proto as P
use reconx.Resolution.Tables.{Database, Env, Call}
use reconx.Resolution.Manual.{ResolutionRequest, ResolutionResponse}
use reconx.Resolution.Manual as M
use reconx.Resolution.Manual.Outcome.{IsAccepted, IsAccepted-of_ok, resolve_manually_iff}
use reconx.Resolution.Manual.Failure.{resolve_manually_error}
use reconx.Gateway.Http.{Request, Response, RpcError, status_error, http_code}
use reconx.Gateway.Handlers.{
  Libs, Clients, ResolveRequestBody, resolution_request, reply, resolve_manually,
}

-- The call of the resolution server, as a client sees it.
unfoldable pub resolution_call :
    (Code → String) → Env → ResolutionRequest → Exec Database RpcError ResolutionResponse
resolution_call message env req db =
    let (result, db') = M.resolve_manually env req db in
    (renamed (λ c. status_error c (message c)) result, db')

-- The gateway's clients, with this server for resolutions.
abbrev pub wired : (Code → String) → Env → Clients Database → Clients Database
wired message env others = record others { resolve_manually = resolution_call message env }

http_code-ne : (c : Code) → http_code c ≢ 200
http_code-ne P.ok e = omega arith
http_code-ne P.canceled e = omega arith
http_code-ne P.unknown e = omega arith
http_code-ne P.invalid_argument e = omega arith
http_code-ne P.deadline_exceeded e = omega arith
http_code-ne P.not_found e = omega arith
http_code-ne P.already_exists e = omega arith
http_code-ne P.permission_denied e = omega arith
http_code-ne P.resource_exhausted e = omega arith
http_code-ne P.failed_precondition e = omega arith
http_code-ne P.aborted e = omega arith
http_code-ne P.out_of_range e = omega arith
http_code-ne P.unimplemented e = omega arith
http_code-ne P.internal e = omega arith
http_code-ne P.unavailable e = omega arith
http_code-ne P.data_loss e = omega arith
http_code-ne P.unauthenticated e = omega arith

module _ (libs : Libs) (message : Code → String) (env : Env) (others : Clients Database)
    (req : Request) (db : Database) where
  abbrev answer : Response × Database
  answer = resolve_manually libs (wired message env others) req db

  -- The request that the server receives.
  abbrev forwarded : ResolveRequestBody → ResolutionRequest
  forwarded body = resolution_request (req.path_value "transaction_ref") body

  -- The gateway answers 200 to exactly the requests whose body decodes and that the resolution server
  -- accepts.
  pub settle_iff : ((resolve_manually libs (wired message env others) req db).0.status ≡ 200) ↔ (
      (body : ResolveRequestBody) × (libs.decode_resolve req.body ≡ some body)
      × IsAccepted env (resolution_request (req.path_value "transaction_ref") body) db)
  unfolding resolve_manually reply resolution_call
  settle_iff = (there, back)
    where
      there :
          answer.0.status ≡ 200
          → (body : ResolveRequestBody) × (libs.decode_resolve req.body ≡ some body)
            × IsAccepted env (forwarded body) db
      there e = elim (Bool-cases (req.path_value "transaction_ref" == "")) [
        | inl a ↦ absurd (let k : 400 ≡ 200 = rw a at e in omega arith)
        | inr a ↦ elim (Option-cases (libs.decode_resolve req.body)) [
          | inl b ↦ absurd (let k : 400 ≡ 200 = rw (a, b) at e in omega arith)
          | inr (body, b) ↦ elim (Result-cases (M.resolve_manually env (forwarded body) db).0) [
            | inl (resp, r) ↦ (body, b, IsAccepted-of_ok env (forwarded body) db r)
            | inr (c, r) ↦ absurd (http_code-ne c (rw (a, b, r) at e))
          ]
        ]
      ]

      back :
          ((body : ResolveRequestBody) × (libs.decode_resolve req.body ≡ some body)
            × IsAccepted env (forwarded body) db)
          → answer.0.status ≡ 200
      back (body, b, h) = rw (
        ==-false (req.path_value "transaction_ref") "" h.has_ref,
        b,
        (resolve_manually_iff env (forwarded body) db).1 h,
      )

  -- An answer other than 200 means that the server's database is as it was, but where it is a 500 for
  -- an update of the state that failed after the decision was written.
  settle_refused :
      (resolve_manually libs (wired message env others) req db).0.status ≢ 200
      → ((resolve_manually libs (wired message env others) req db).1 ≡ db)
        ⊎ (((resolve_manually libs (wired message env others) req db).0.status ≡ 500)
            × (env.fails Call.update_state ≡ true))
  unfolding resolve_manually reply resolution_call
  settle_refused ne = elim (Bool-cases (req.path_value "transaction_ref" == "")) [
    | inl a ↦ inl (rw a)
    | inr a ↦ elim (Option-cases (libs.decode_resolve req.body)) [
      | inl b ↦ inl (rw (a, b))
      | inr (body, b) ↦ elim (Result-cases (M.resolve_manually env (forwarded body) db).0) [
        | inl (resp, r) ↦ absurd (ne (rw (a, b, r)))
        | inr (c, r) ↦ elim (resolve_manually_error env (forwarded body) db c r) [
          | inl same ↦ inl (rw (a, b, r, same))
          | inr (f, is_internal, _) ↦ inr (rw (a, b, r, is_internal), f)
        ]
      ]
    ]
  ]
