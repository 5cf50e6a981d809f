-- ===== src/Proxies/Hyper.antt =====
-- proxy-hyper/src/main.rs: `hello`, which sends a request on to the origin server.
pub mod Server
use benchmark_reverse_proxie.Common.{ℕ, List, Option, none, some}
use benchmark_reverse_proxie.Common.Bytes.{Bytes, bytes}
use benchmark_reverse_proxie.Http.Headers.{HeadersApi}

module _ (api : HeadersApi) where
  open api use {Headers}

  -- `http::Request<Incoming>`
  pub record Request (Uri : Type 0) : Type 0 where
    pub method : Bytes
    pub uri : Uri
    pub headers : Headers
    pub body : Bytes

  -- `http::Response<Incoming>`
  pub record Response : Type 0 where
    pub status : ℕ
    pub headers : Headers
    pub body : Bytes

  -- The crates http and hyper: `parse` of a URI, and the client's `request`.
  pub record Crates : Type 1 where
    pub Uri : Type 0
    pub parse : Bytes → Option Uri
    pub request : Request Uri → Option Response

  pub data Answer : Type 0 where
    ok : Response → Answer
    err : Answer
    panicked : Answer

  abbrev pub with_server : Option Response → Answer
  with_server none = err
  with_server (some res) =
      ok (record res { headers = api.insert res.headers (bytes "server") (bytes "hyper") })

  module _ (crates : Crates) where
    abbrev pub send_to : Request crates.Uri → Option crates.Uri → Answer
    send_to req none = panicked
    send_to req (some uri) = with_server (crates.request (record req { uri = uri }))

    unfoldable pub hello : Request crates.Uri → Answer
    hello req = send_to req (crates.parse (bytes "http://localhost:3000"))
