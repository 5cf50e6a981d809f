-- ===== src/Proxies/Hyper/Server.antt =====
-- proxy-hyper/src/main.rs: what `hello` hands on, and what it keeps to itself.
use benchmark_reverse_proxie.Common.{◌≡◌, refl, none, some, [], ◌∷◌, if◌then◌else◌}
use benchmark_reverse_proxie.Common.Bytes.{Bytes, bytes}
use benchmark_reverse_proxie.Http.{eq_bytes}
use benchmark_reverse_proxie.Http.Headers.{HeadersApi, IsHeaders}
use benchmark_reverse_proxie.Proxies.Hyper.{Request, Response, Crates, ok, send_to, hello}

module _ (api : HeadersApi) (laws : IsHeaders api) (crates : Crates api) where
  -- Where the headers keep their contract, the origin's URI is parsed and the origin server answers
  -- the request for it, the client gets this answer's status and body, and its header fields, but
  -- for `server`, which has the one value `hyper`.
  pub hello-server :
      (req : Request api crates.Uri) (uri : crates.Uri) (res : Response api)
      → crates.parse (bytes "http://localhost:3000") ≡ some uri
      → crates.request (record req { uri = uri }) ≡ some res
      → (headers : api.Headers) × (hello api crates req ≡ ok (record res { headers = headers }))
        × ((name : Bytes)
            → api.values headers name ≡ (
                if eq_bytes name (bytes "server")
                then bytes "hyper" ∷ []
                else api.values res.headers name))
  unfolding hello
  hello-server req uri res parsed answered = (
    api.insert res.headers (bytes "server") (bytes "hyper"),
    rw (parsed, answered) refl,
    λ name. laws.values-insert res.headers (bytes "server") (bytes "hyper") name,
  )

  -- The path and the query that a client asks for do not reach the origin server: two requests that
  -- agree on all but their URI are answered alike.
  hello-any_uri :
      (req : Request api crates.Uri) (uri : crates.Uri)
      → hello api crates (record req { uri = uri }) ≡ hello api crates req
  unfolding hello
  hello-any_uri req uri =
      elim (crates.parse (bytes "http://localhost:3000"))
        as (λ p. send_to api crates (record req { uri = uri }) p ≡ send_to api crates req p) [
          | none ↦ refl
          | some u ↦ refl
        ]
