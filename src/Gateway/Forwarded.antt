-- ===== src/Gateway/Forwarded.antt =====
-- handlers.go, the forwarded routes: what the upstream cannot tell apart.
use Prim.Native.String.{◌++◌ as ◌<>◌}
use text.Mathlib.TextLemmas.{append_assoc, cons-append, cons-ne-nil}
use reconx.Base.{String, ◌≡◌, refl, sym, ap, ◌∙◌, ◌≢◌, ==-false}
use reconx.Gateway.Http.{Request}
use reconx.Gateway.Proxy.{RestClient, target_url, send_to, proxy_to_resolution, auto_resolve_proxy}

-- The request for a reference, with a raw query.
abbrev pub asking : Request → (ref raw_query : String) → Request
asking req ref raw_query = record req { path_value = λ _. ref; raw_query = raw_query }

target_url-joined :
    (base prefix ref query : String)
    → query ≢ ""
    → target_url base (prefix <> (ref <> ("?" <> query))) "" ≡ target_url base (prefix <> ref) query
unfolding target_url
target_url-joined base prefix ref query ne = rw (==-false query "" ne) (
    ap (λ t. base <> t) (sym (append_assoc prefix ref ("?" <> query)))
    ∙ sym (append_assoc base (prefix <> ref) ("?" <> query)))

joined-ne : (ref query : String) → ref ≢ "" → (ref <> ("?" <> query)) ≢ ""
joined-ne String.[] query ne e = ne refl
joined-ne (String.◌∷◌ c s) query ne e =
    cons-ne-nil c (s <> ("?" <> query)) (sym (cons-append c s ("?" <> query)) ∙ e)

-- A reference is put into the upstream path unescaped: an automatic resolution of a reference that holds
-- a question mark is forwarded, answered and carried out as one of the part before the mark, with the
-- part after it for its query.
pub auto_resolve_proxy_confuses :
    {S : Type 0} (client : RestClient S) (req : Request) (ref query : String) (s : S)
    → ref ≢ ""
    → query ≢ ""
    → auto_resolve_proxy client (asking req (ref <> ("?" <> query)) "") s
      ≡ auto_resolve_proxy client (asking req ref query) s
unfolding auto_resolve_proxy proxy_to_resolution
auto_resolve_proxy_confuses client req ref query s ne filled =
    let same = target_url-joined client.base_url "/v1/resolve/auto/" ref query filled in
    rw (==-false ref "" ne, ==-false (ref <> ("?" <> query)) "" (joined-ne ref query ne))
      (ap (λ t. send_to client t req s) same)
