-- ===== src/Gateway/Auth.antt =====
-- services/gateway/internal/middleware/auth.go: the middleware that asks for the API key.
use text.Mathlib.Text.{starts_with}
use reconx.Base.{
  String, true, false, not, ◌≡◌, ◌≢◌, ◌⊎◌, inl, inr, ◌==◌, if◌then◌else◌, eq_iff, Bool-cases,
  ==-false,
}
use reconx.Gateway.Http.{Request, Response, Handler, error_body}

abbrev pub unauthorized : Response
unauthorized = record {
  status = 401;
  content_type = "application/json";
  body = error_body "unauthorized";
}

unfoldable pub api_key_auth : {S : Type 0} → String → Handler S → Handler S
api_key_auth key next req s =
    if req.path == "/health"
    then next req s
    else if starts_with req.path "/v1/"
    then (if key == ""
        then next req s
        else if not (req.headers "X-API-Key" == key)
        then (unauthorized, s)
        else next req s)
    else next req s

-- Where a key is configured, a request to a path under /v1/ that changes anything behind the
-- middleware, or whose answer is not 401, carries the key in X-API-Key.
api_key_auth_needed :
    {S : Type 0} (key : String) (next : Handler S) (req : Request) (s : S)
    → key ≢ ""
    → starts_with req.path "/v1/" ≡ true
    → ((api_key_auth key next req s).1 ≢ s) ⊎ ((api_key_auth key next req s).0.status ≢ 401)
    → req.headers "X-API-Key" ≡ key
unfolding api_key_auth
api_key_auth_needed key next req s set under seen =
    elim (Bool-cases (req.headers "X-API-Key" == key)) [
      | inl e ↦ (eq_iff (req.headers "X-API-Key") key).0 e
      | inr e ↦
          let p = not_health req.path under in
          let q = ==-false key "" set in
          absurd (elim seen [ inl c ↦ c (rw (p, under, q, e)) | inr c ↦ c (rw (p, under, q, e)) ])
    ]
  where
    not_health : (path : String) → starts_with path "/v1/" ≡ true → (path == "/health") ≡ false
    not_health path h = elim (Bool-cases (path == "/health")) [
      | inl e ↦ absurd (let k = rw ((eq_iff path "/health").0 e) at h in cc)
      | inr e ↦ e
    ]
