-- ===== src/Proxies/Actix.antt =====
-- proxy-actix/src/main.rs: `forward`, which hands a request on and its answer back.
pub mod Relay
use benchmark_reverse_proxie.Common.{
  ℕ, Bool, true, false, not, ◌||◌, List, [], ◌∷◌, Option, none, some, if◌then◌else◌,
}
use benchmark_reverse_proxie.Common.Bytes.{Bytes, bytes}
use benchmark_reverse_proxie.Http.{Field, eq_bytes}
use benchmark_reverse_proxie.Http.Headers.{HeadersApi}

-- `HOP_HEADERS`
abbrev pub hop_headers : List Bytes
hop_headers =
    bytes "connection"
    ∷ bytes "transfer-encoding"
    ∷ bytes "te"
    ∷ bytes "expect"
    ∷ bytes "upgrade"
    ∷ bytes "keep-alive"
    ∷ []

contains : List Bytes → Bytes → Bool
unfolding eq_bytes
contains [] name = false
contains (k ∷ ks) name = eq_bytes name k || contains ks name

unfoldable pub is_hop : Bytes → Bool
unfolding contains
is_hop name = contains hop_headers name

-- What the upstream server answers: its fields in the order of iteration.
pub record Upstream : Type 0 where
  pub status : ℕ
  pub headers : List Field
  pub body : Bytes

module _ (api : HeadersApi) where
  open api use {Headers}

  -- A client's request: the path, the query and the head of the message.
  pub record Incoming : Type 0 where
    pub path : Bytes
    pub query : Option Bytes
    pub method : Bytes
    pub headers : Headers

  -- A request of `awc::Client`.
  pub record Outgoing (Url : Type 0) : Type 0 where
    pub url : Url
    pub method : Bytes
    pub headers : Headers
    pub decompress : Bool

  -- The crates url, awc and actix-web.
  pub record Crates : Type 1 where
    pub Url : Type 0
    pub set_path : Url → Bytes → Url
    pub set_query : Url → Option Bytes → Url
    pub request_from : Url → Incoming → Outgoing Url
    -- `send_stream`, with the payload; `none` is an error
    pub send_stream : Outgoing Url → Bytes → Option Upstream
    -- `streaming` of actix, on the fields that the builder has
    pub streaming : Headers → Headers

  -- An `HttpResponse`, or `ErrorInternalServerError`.
  pub data Answer : Type 0 where
    response : (status : ℕ) (headers : Headers) (body : Bytes) → Answer
    internal_server_error : Answer

  -- The loop over the filtered header fields of the answer.
  unfoldable pub copy_headers : Headers → List Field → Headers
  copy_headers h [] = h
  copy_headers h ((name, value) ∷ later) =
      copy_headers (if not (is_hop name) then api.insert h name value else h) later

  module _ (crates : Crates) where
    -- What the client of the proxy gets, from what `send_stream` gave.
    unfoldable pub answer : Option Upstream → Answer
    answer none = internal_server_error
    answer (some res) =
        response res.status (crates.streaming (copy_headers api.empty res.headers)) res.body

    -- The request that goes to the upstream server.
    unfoldable pub forwarded_req : crates.Url → Incoming → Option Bytes → Outgoing crates.Url
    forwarded_req url req peer_addr =
        let new_url = crates.set_query (crates.set_path url req.path) req.query in
        let out : Outgoing crates.Url = record (crates.request_from new_url req) {
          decompress = false;
        } in
        elim peer_addr [
          | none ↦ out
          | some ip ↦ record out { headers = api.insert out.headers (bytes "x-forwarded-for") ip }
        ]

    unfoldable pub forward : crates.Url → Incoming → (payload : Bytes) → Option Bytes → Answer
    forward url req payload peer_addr =
        answer (crates.send_stream (forwarded_req url req peer_addr) payload)
