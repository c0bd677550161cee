-- ===== src/Gateway/Dial.antt =====
-- services/gateway/internal/clients/clients.go: the connections to the services behind the gateway. A
-- connection is known by its address; whether grpc.NewClient takes an address is a parameter. The
-- connections that are open are a list, with one entry for each.
use reconx.Base.{
  String, Bool, ◌≡◌, Option, none, some, List, [], ◌∷◌, ◌==◌, if◌then◌else◌, eq_refl, eq_iff, arith,
}

pub record ResolutionHttpClient : Type 0 where
  pub base_url : String

pub record Clients : Type 0 where
  pub ingestion : String
  pub engine : String
  pub resolution : String
  pub resolution_http : ResolutionHttpClient
  pub conns : List String

-- conn.Close()
unfoldable pub close_conn : String → List String → List String
close_conn addr [] = []
close_conn addr (c ∷ open_conns) =
    let rest = close_conn addr open_conns in if c == addr then open_conns else c ∷ rest

abbrev pub new_resolution_http_client : String → ResolutionHttpClient
new_resolution_http_client base_url = record { base_url = base_url }

-- Close
unfoldable pub close_all : List String → List String → List String
unfolding close_conn
close_all [] open_conns = open_conns
close_all (c ∷ conns) open_conns = close_all conns (close_conn c open_conns)

module _ (is_address : String → Bool) where
  unfoldable pub new :
      (ingestion_addr engine_addr resolution_addr resolution_http_addr : String)
      → List String
      → Option Clients × List String
  unfolding close_conn
  new ingestion_addr engine_addr resolution_addr resolution_http_addr open_conns =
      if is_address ingestion_addr
      then (if is_address engine_addr
          then (if is_address resolution_addr
              then (
                some (record {
                  ingestion = ingestion_addr;
                  engine = engine_addr;
                  resolution = resolution_addr;
                  resolution_http = new_resolution_http_client resolution_http_addr;
                  conns = ingestion_addr ∷ engine_addr ∷ resolution_addr ∷ [];
                }),
                resolution_addr ∷ engine_addr ∷ ingestion_addr ∷ open_conns,
              )
              else (
                none,
                close_conn engine_addr
                    (close_conn ingestion_addr (engine_addr ∷ ingestion_addr ∷ open_conns)),
              ))
          else (none, close_conn ingestion_addr (ingestion_addr ∷ open_conns)))
      else (none, open_conns)

  -- What is open once the clients, where there are any, are closed.
  abbrev pub closed : Option Clients × List String → List String
  closed (none, open_conns) = open_conns
  closed (some clients, open_conns) = close_all clients.conns open_conns

  -- No connection leaks: where a dial fails, those that were made before it are closed, and where all
  -- succeed, Close closes each of them; the connections that were open before stay open.
  closed-new :
      (ingestion_addr engine_addr resolution_addr resolution_http_addr : String)
      (open_conns : List String)
      → closed (new ingestion_addr engine_addr resolution_addr resolution_http_addr open_conns)
        ≡ open_conns
  unfolding new close_all
  closed-new a b c h open_conns = ground (
    arith,
    eq_iff a b,
    eq_iff b a,
    eq_iff b c,
    eq_iff c b,
    eq_iff a c,
    eq_iff c a,
    eq_refl a,
    eq_refl b,
    eq_refl c,
  )
