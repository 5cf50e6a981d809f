-- ===== src/Origins/Handlers.antt =====
-- The handlers of origin-actix, origin-ntex and origin-hyper, in the src/main.rs of each: none of
-- them looks at its request. A response starts without fields, at the status that it is given, or
-- at 200.
pub mod Agree
use benchmark_reverse_proxie.Common.{ℕ}
use benchmark_reverse_proxie.Common.Bytes.{Bytes, bytes}
use benchmark_reverse_proxie.Http.{lower}
use benchmark_reverse_proxie.Http.Headers.{HeadersApi}

module _ (api : HeadersApi) where
  open api use {Headers}

  pub record Response : Type 0 where
    pub status : ℕ
    pub headers : Headers
    pub body : Bytes

  module _ {Request : Type 0} where
    -- The closure of origin-actix. Names that are given as texts are put in lower case.
    unfoldable pub actix_handler : Request → Response
    actix_handler req =
        let built : Response = record { status = 200; headers = api.empty; body = bytes "" } in
        let named : Response = record built {
          headers = api.insert built.headers (lower (bytes "Server")) (bytes "actix");
        } in
        let typed : Response = record named {
          headers = api.insert named.headers (lower (bytes "Content-Type")) (bytes "text/plain");
        } in
        record typed { body = bytes "Hello, world!\n" }

    -- The closure of origin-ntex.
    unfoldable pub ntex_handler : Request → Response
    ntex_handler req =
        let res : Response = record {
          status = 200;
          headers = api.empty;
          body = bytes "Hello, world!\n";
        } in
        let typed = api.insert res.headers (bytes "content-type") (bytes "text/plain") in
        record res { headers = api.insert typed (bytes "server") (bytes "ntex") }

    -- `hello` of origin-hyper.
    unfoldable pub hello : Request → Response
    hello req =
        let res : Response = record {
          status = 200;
          headers = api.empty;
          body = bytes "Hello, world!\n";
        } in
        let named = api.insert res.headers (bytes "server") (bytes "hyper") in
        record res { headers = api.insert named (bytes "content-type") (bytes "text/plain") }
