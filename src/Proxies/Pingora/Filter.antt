-- ===== src/Proxies/Pingora/Filter.antt =====
-- proxy-pingora/src/main.rs: what the client finds in a response.
use benchmark_reverse_proxie.Common.{◌≡◌, [], ◌∷◌, Option, some, arith, if◌then◌else◌}
use benchmark_reverse_proxie.Common.Bytes.{Bytes, bytes}
use benchmark_reverse_proxie.Http.{eq_bytes, lower}
use benchmark_reverse_proxie.Http.RoundTrip.{IsField}
use benchmark_reverse_proxie.Http.Headers.{HeadersApi, IsHeaders}
use benchmark_reverse_proxie.Proxies.Pingora.{response_filter}

module _ (api : HeadersApi) (laws : IsHeaders api)
    (insert_header : api.Headers → Bytes → Bytes → Option api.Headers) where
  -- `insert_header` does what `insert` does, if the name and the value can be those of a field.
  abbrev pub InsertsFields : Type 0
  InsertsFields =
      (h : api.Headers) (name value : Bytes)
      → IsField (lower name, value)
      → insert_header h name value ≡ some (api.insert h (lower name) value)

  -- Where the headers keep their contract, the filter succeeds, and the client finds `pingora` as
  -- the only value of the field `server`, and every other field as the upstream server sent it.
  pub response_filter-server :
      (h : api.Headers)
      → InsertsFields
      → (h' : api.Headers) × (response_filter api insert_header h ≡ some h')
        × ((name : Bytes)
            → api.values h' name ≡ (
                if eq_bytes name (bytes "server") then bytes "pingora" ∷ [] else api.values h name))
  unfolding response_filter lower
  response_filter-server h inserts = (
    api.insert h (bytes "server") (bytes "pingora"),
    inserts h (bytes "Server") (bytes "pingora") (omega arith),
    λ name. laws.values-insert h (bytes "server") (bytes "pingora") name,
  )
