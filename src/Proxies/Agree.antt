-- ===== src/Proxies/Agree.antt =====
-- The answers of the three proxies, side by side, to one answer of the origin server.
use benchmark_reverse_proxie.Common.{
  ◌≤◌, ◌≡◌, ap, ◌∙◌, false, List, [], ◌∷◌, Option, some, length, if◌then◌else◌,
}
use benchmark_reverse_proxie.Common.Bytes.{Bytes, bytes}
use benchmark_reverse_proxie.Http.{Field, eq_bytes}
use benchmark_reverse_proxie.Http.Headers.{HeadersApi, IsHeaders, values_of}
use benchmark_reverse_proxie.Proxies.Actix
use benchmark_reverse_proxie.Proxies.Actix.{Incoming, response, is_hop, forwarded_req, forward}
use benchmark_reverse_proxie.Proxies.Actix.Relay.{
  typed, IsStreaming, forward-relayed, latest_keeps_iff,
}
use benchmark_reverse_proxie.Proxies.Hyper
use benchmark_reverse_proxie.Proxies.Hyper.{Request, ok, hello}
use benchmark_reverse_proxie.Proxies.Hyper.Server.{hello-server}
use benchmark_reverse_proxie.Proxies.Pingora.{response_filter}
use benchmark_reverse_proxie.Proxies.Pingora.Filter.{InsertsFields, response_filter-server}

-- The map holds the fields of a message.
abbrev pub Holds : (api : HeadersApi) → api.Headers → List Field → Type 0
Holds api h fields = (name : Bytes) → api.values h name ≡ values_of name fields

-- The values of a name, where a server of this name has put its own in.
abbrev pub renamed : Bytes → List Field → Bytes → List Bytes
renamed server fields name =
    if eq_bytes name (bytes "server") then server ∷ [] else values_of name fields

module _ (api : HeadersApi) (laws : IsHeaders api) (awc : Actix.Crates api)
    (hyper : Hyper.Crates api) (insert_header : api.Headers → Bytes → Bytes → Option api.Headers)
    (inserts : InsertsFields api laws insert_header) where
  -- The same answer comes back to each of the proxies, in the form that its client library gives it.
  pub record Returned (url : awc.Url) (incoming : Incoming api) (payload : Bytes)
      (peer_addr : Option Bytes) (req : Request api hyper.Uri) (res : Actix.Upstream)
      (to_hyper : api.Headers) (to_pingora : api.Headers) : Type 0 where
    pub uri : hyper.Uri
    pub streams : IsStreaming api awc
    pub parsed : hyper.parse (bytes "http://localhost:3000") ≡ some uri
    pub to_awc : awc.send_stream (forwarded_req api awc url incoming peer_addr) payload ≡ some res
    pub answered :
        hyper.request (record req { uri = uri })
        ≡ some (record { status = res.status; headers = to_hyper; body = res.body })
    pub hyper_holds : Holds api to_hyper res.headers
    pub pingora_holds : Holds api to_pingora res.headers

  -- Where the headers and `streaming` keep their contracts and one and the same answer of the origin
  -- server comes back to the three proxies: the clients of proxy-actix and of proxy-hyper get its
  -- status and its body, and proxy-pingora's filter succeeds on its fields. Under a name that is no
  -- field of one hop and has one value at most, the clients of the three find what the origin server
  -- sent, but for the field `server`, which is `hyper` behind proxy-hyper, `pingora` behind
  -- proxy-pingora, and the origin server's behind proxy-actix, and for the content type, which is
  -- `application/octet-stream` behind proxy-actix if the origin server gave none.
  pub proxies-Agree :
      (url : awc.Url) (incoming : Incoming api) (payload : Bytes) (peer_addr : Option Bytes)
      (req : Request api hyper.Uri) (res : Actix.Upstream) (to_hyper to_pingora : api.Headers)
      (name : Bytes)
      → Returned url incoming payload peer_addr req res to_hyper to_pingora
      → is_hop name ≡ false
      → length (values_of name res.headers) ≤ 1
      → (a b c : api.Headers) × (forward api awc url incoming payload peer_addr
          ≡ response res.status a res.body)
        × (hello api hyper req ≡ ok (record { status = res.status; headers = b; body = res.body }))
        × (response_filter api insert_header to_pingora ≡ some c)
        × (api.values a name ≡ typed name (values_of name res.headers))
        × (api.values b name ≡ renamed (bytes "hyper") res.headers name)
        × (api.values c name ≡ renamed (bytes "pingora") res.headers name)
  proxies-Agree url incoming payload peer_addr req res to_hyper to_pingora name r end few =
      let (a, forwarded, relayed) =
        forward-relayed api laws awc url incoming payload peer_addr res r.streams r.to_awc in
      let (b, handed, shown) = hello-server api laws hyper req r.uri _ r.parsed r.answered in
      let (c, filtered, kept) = response_filter-server api laws insert_header to_pingora inserts in
      (
        a,
        b,
        c,
        forwarded,
        handed,
        filtered,
        relayed name
            ∙ ap (typed name) (rw end ((latest_keeps_iff (values_of name res.headers)).1 few)),
        shown name ∙ rw (r.hyper_holds name),
        kept name ∙ rw (r.pingora_holds name),
      )
