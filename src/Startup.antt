-- ===== src/Startup.antt =====
-- `main` of origin-actix, origin-heph, origin-ntex, origin-pingora, proxy-actix and proxy-pingora,
-- in the src/main.rs of each: what they ask of their framework before it serves. `ok` is also the
-- result of a `main` whose framework never returns; `panicked` is also that of a process that is
-- ended.
pub mod Follows
pub mod Launches
mod Tests
use benchmark_reverse_proxie.Common.{ℕ, Bool, true, false, ◌&&◌, List, [], ◌∷◌, ◌++◌, if◌then◌else◌}
use benchmark_reverse_proxie.Common.Bytes.{Bytes, bytes}
use benchmark_reverse_proxie.Common.Bytes.Decimal.{decimal}
use benchmark_reverse_proxie.Common.Logged.{
  Result, ok, err, panicked, Logged, ◌>>=◌, ◌>>◌, pure, unwrap,
}

-- The calls of the frameworks and of the standard library, with the arguments that matter.
pub data Call : Type 0 where
  init_logger : Call
  parse : (text : Bytes) → Call
  to_socket_addrs : (host : Bytes) (port : ℕ) → Call
  new_server : Call
  bootstrap : Call
  backlog : ℕ → Call
  config :
      (name : Bytes) (keepalive_of_os : Bool) (client_timeout : ℕ)
      (headers_read_rate payload_read_rate : List ℕ)
      → Call
  listen_on : (address : Bytes) → Call  -- `bind`, and `Server::new` of heph_http
  add_tcp : (address : Bytes) → Call
  http_server : (forward_url : Bytes) → Call  -- `HttpServer::new`: its factory holds the URL
  add_service : Call
  build_runtime : (all_cores : Bool) → Call
  run_on_workers : Call
  run : Call  -- `run`, and `start` of heph_rt
  run_forever : Call

-- Whether the call can return an error, panic or end the process.
abbrev pub fallible : Call → Bool
fallible (backlog n) = false
fallible (config name k c h p) = false
fallible (add_tcp address) = false
fallible (http_server url) = false
fallible add_service = false
fallible run_forever = false
fallible _ = true

-- The arguments of a host and a port, as the text of an address.
abbrev pub socket_addr : Bytes → ℕ → Bytes
socket_addr host port = host ++ (bytes ":" ++ decimal port)

module _ (fails : Call → Bool) where
  abbrev pub stops : Call → Bool
  stops call = fallible call && fails call

  unfoldable pub perform : Call → Logged Call Unit
  perform call log = (if stops call then err else ok tt, log ++ call ∷ [])

  unfoldable pub origin_actix_main : Logged Call Unit
  origin_actix_main = do
    unwrap (perform init_logger)
    perform (listen_on (socket_addr (bytes "127.0.0.1") 3000))
    perform run

  unfoldable pub origin_ntex_main : Logged Call Unit
  origin_ntex_main = do
    unwrap (perform init_logger)
    perform (backlog 1024)
    perform (listen_on (bytes "127.0.0.1:3000"))
    perform (config (bytes "hello-world") true 0 (0 ∷ 0 ∷ 0 ∷ []) (0 ∷ 0 ∷ 0 ∷ []))
    perform run

  unfoldable pub origin_pingora_main : Logged Call Unit
  origin_pingora_main = do
    unwrap (perform new_server)
    unwrap (perform bootstrap)
    perform (add_tcp (bytes "0.0.0.0:3000"))
    perform add_service
    perform run_forever

  unfoldable pub proxy_pingora_main : Logged Call Unit
  proxy_pingora_main = do
    unwrap (perform new_server)
    unwrap (perform bootstrap)
    perform (add_tcp (bytes "0.0.0.0:3001"))
    perform add_service
    perform run_forever

  unfoldable pub origin_heph_main : Logged Call Unit
  origin_heph_main = do
    unwrap (perform init_logger)
    unwrap (perform (parse (bytes "0.0.0.0:3000")))
    perform (listen_on (bytes "0.0.0.0:3000"))
    perform (build_runtime true)
    perform run_on_workers
    perform run

  -- `next().expect(...)` on the addresses, and the rest.
  abbrev pub with_addrs : List Bytes → Logged Call Unit
  with_addrs [] log = (panicked, log)
  with_addrs (addr ∷ more) log =
      (do
        unwrap (perform (parse (bytes "http://" ++ addr)))
        perform (http_server (bytes "http://" ++ addr))
        perform (listen_on (socket_addr (bytes "127.0.0.1") 3001))
        perform run)
        log

  -- `addrs` is what a host and a port stand for, if `to_socket_addrs` succeeds.
  unfoldable pub proxy_actix_main : (Bytes → ℕ → List Bytes) → Logged Call Unit
  proxy_actix_main addrs = do
    unwrap (perform init_logger)
    perform (to_socket_addrs (bytes "127.0.0.1") 3000)
    with_addrs (addrs (bytes "127.0.0.1") 3000)
