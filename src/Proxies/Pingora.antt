-- ===== src/Proxies/Pingora.antt =====
-- proxy-pingora/src/main.rs: `MyProxy`, which sends every request to one server and puts its name
-- on the responses.
pub mod Filter
use benchmark_reverse_proxie.Common.{ℕ, Bool, false, List, [], ◌∷◌, Option}
use benchmark_reverse_proxie.Common.Bytes.{Bytes, bytes}
use benchmark_reverse_proxie.Http.Headers.{HeadersApi}

-- The arguments of `HttpPeer::new`.
pub record HttpPeer : Type 0 where
  pub ip : List ℕ
  pub port : ℕ
  pub tls : Bool
  pub sni : Bytes

unfoldable pub upstream_peer : HttpPeer
upstream_peer = record { ip = 127 ∷ 0 ∷ 0 ∷ 1 ∷ []; port = 3000; tls = false; sni = [] }

-- `ResponseHeader::insert_header`, which may give an error.
module _ (api : HeadersApi) (insert_header : api.Headers → Bytes → Bytes → Option api.Headers) where
  unfoldable pub response_filter : api.Headers → Option api.Headers
  response_filter upstream_response =
      insert_header upstream_response (bytes "Server") (bytes "pingora")
