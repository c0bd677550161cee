-- ===== src/Gateway/Examples/Passing.antt =====
-- The theorem on the forwarded routes, with a concrete multiplexer.
use Prim.Native.String.{◌++◌ as ◌<>◌}
use Prim.Native.Char.{code}
use text.Mathlib.TextLemmas.{append_assoc, nil-append, cons-append}
use reconx.Base.{
  ℕ, String, true, ◌≡◌, refl, Option, none, some, List, [], ◌∷◌, ◌==◌, if◌then◌else◌, leb, arith,
}
use reconx.Base.Counter.{Observed}
use reconx.Base.Int.{pos}
use reconx.Base.Text.{drop_prefix}
use reconx.Resolution.Examples as E
use reconx.Resolution.Tables.{Database}
use reconx.Resolution.Api as A
use reconx.Resolution.Api.Server.{
  register_routes, get_audit_trail_route, enqueue_retry_route, auto_resolve_route, wrap, ApiBody,
  Reply, Route, Libs, write_error,
}
use reconx.Gateway.Proxy.{auto_resolve_proxy, retry_proxy, audit_proxy}
use reconx.Gateway.Examples.{post}
use reconx.Gateway.Passed.{
  is_plain, is_plain, proxies_pass, passed_on, plain_request, rest, Serve, asked, find_route,
  IsDispatched,
}

abbrev base : String
base = "http://resolution:8082"

leb_refl : (n : ℕ) → leb n n ≡ true
leb_refl n = ground arith

drop_prefix-append : (p s : String) → drop_prefix p (p <> s) ≡ some s
unfolding drop_prefix
drop_prefix-append String.[] s = rw (nil-append s) refl
drop_prefix-append (String.◌∷◌ c p) s =
    rw (cons-append c p s) (rw (leb_refl (code c)) (drop_prefix-append p s))

-- A prefix that is apart from another is none of a text that begins with the other.
drop_prefix-apart :
    (p q s : String)
    → drop_prefix p q ≡ none
    → drop_prefix q p ≡ none
    → drop_prefix p (q <> s) ≡ none
unfolding drop_prefix
drop_prefix-apart String.[] q s h k = absurd (cc)
drop_prefix-apart (String.◌∷◌ c p) String.[] s h k = absurd (cc)
drop_prefix-apart (String.◌∷◌ c p) (String.◌∷◌ d q) s h k =
    rw (cons-append d q s) (ground (arith, drop_prefix-apart p q s))

-- The routes that end in {ref}, by method and prefix.
abbrev patterns : List (String × String)
patterns =
    ("POST", "/v1/resolve/auto/")
    ∷ ("POST", "/v1/resolve/retry/")
    ∷ ("GET", "/v1/resolve/audit/")
    ∷ []

abbrev called : {S : Type 0} → Option (Route S) → String → List ℕ → S → Reply × S
called none ref body s = (write_error 404, s)
called (some route) ref body s = route (asked ref body) s

abbrev or_next :
    {S : Type 0} → Option String → Option (Route S) → List ℕ → S → Reply × S → Reply × S
or_next none route body s next = next
or_next (some ref) route body s next = called route ref body s

abbrev try_patterns : {S : Type 0} → List (String × String) → Serve S
try_patterns [] routes u s = (write_error 404, s)
try_patterns ((method, prefix) ∷ ps) routes u s =
    if method == u.method
    then or_next (drop_prefix (base <> prefix) u.target)
        (find_route (method <> (" " <> (prefix <> "{ref}"))) routes) u.body s
        (try_patterns ps routes u s)
    else try_patterns ps routes u s

abbrev serve : {S : Type 0} → Serve S
serve = try_patterns patterns

taken : (prefix ref : String) → drop_prefix (base <> prefix) (base <> (prefix <> ref)) ≡ some ref
taken prefix ref = rw (← append_assoc base prefix ref) (drop_prefix-append (base <> prefix) ref)

skipped :
    (p q ref : String)
    → drop_prefix (base <> p) (base <> q) ≡ none
    → drop_prefix (base <> q) (base <> p) ≡ none
    → drop_prefix (base <> p) (base <> (q <> ref)) ≡ none
skipped p q ref h k =
    rw (← append_assoc base q ref) (drop_prefix-apart (base <> p) (base <> q) ref h k)

module _ {S : Type 0} (routes : List (String × Route S)) where
  auto-IsDispatched : IsDispatched serve base routes "POST" "/v1/resolve/auto/"
  auto-IsDispatched ref route content_type body s found plain filled =
      rw (taken "/v1/resolve/auto/" ref, found)

  retry-IsDispatched : IsDispatched serve base routes "POST" "/v1/resolve/retry/"
  retry-IsDispatched ref route content_type body s found plain filled = rw (
    skipped "/v1/resolve/auto/" "/v1/resolve/retry/" ref (unfold drop_prefix in refl)
        (unfold drop_prefix in refl),
    taken "/v1/resolve/retry/" ref,
    found,
  )

  audit-IsDispatched : IsDispatched serve base routes "GET" "/v1/resolve/audit/"
  audit-IsDispatched ref route content_type body s found plain filled =
      rw (taken "/v1/resolve/audit/" ref, found)

abbrev libs : Libs
libs = record {
  decode_auto = λ _. A.Body.no_body;
  decode_retry = λ _. A.Body.no_body;
  atoi = λ _. pos 0;
  parse_int_32 = λ _. pos 0;
}

abbrev observed : Observed Database
observed = record { state = E.db; http_requests_total = λ _ _ _. 0 }

abbrev encode : ApiBody → List ℕ
encode body = []

proxies_pass_example :
    (auto_resolve_proxy
        (rest libs E.quoted E.api_config E.env base encode serve)
        (plain_request libs E.quoted E.api_config E.env base encode serve post "POST" "T1")
        observed
      ≡ passed_on libs E.quoted E.api_config E.env base encode serve (
          wrap "POST" "/v1/resolve/auto/{ref}"
            (auto_resolve_route libs E.quoted E.api_config E.env)
            (asked "T1" post.body)
            observed))
    × (retry_proxy
          (rest libs E.quoted E.api_config E.env base encode serve)
          (plain_request libs E.quoted E.api_config E.env base encode serve post "POST" "T1")
          observed
        ≡ passed_on libs E.quoted E.api_config E.env base encode serve (
            wrap "POST" "/v1/resolve/retry/{ref}"
              (enqueue_retry_route libs E.quoted E.api_config E.env)
              (asked "T1" post.body)
              observed))
    × (audit_proxy
          (rest libs E.quoted E.api_config E.env base encode serve)
          (plain_request libs E.quoted E.api_config E.env base encode serve post "GET" "T1")
          observed
        ≡ passed_on libs E.quoted E.api_config E.env base encode serve (
            wrap "GET" "/v1/resolve/audit/{ref}"
              (get_audit_trail_route libs E.quoted E.api_config E.env)
              (asked "T1" post.body)
              observed))
proxies_pass_example =
    proxies_pass libs E.quoted E.api_config E.env base encode serve post "T1" observed
      (auto-IsDispatched (register_routes libs E.quoted E.api_config E.env))
      (retry-IsDispatched (register_routes libs E.quoted E.api_config E.env))
      (audit-IsDispatched (register_routes libs E.quoted E.api_config E.env))
      (unfold is_plain in refl) (λ e. cc)
