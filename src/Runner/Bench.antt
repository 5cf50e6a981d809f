-- ===== src/Runner/Bench.antt =====
-- The benchmarks and `main` of src/main.rs, and `main` of build.rs.
use benchmark_reverse_proxie.Common.{
  Bool, true, false, not, List, [], ◌∷◌, ◌++◌, some, if◌then◌else◌,
}
use benchmark_reverse_proxie.Common.Bytes.{Bytes, bytes}
use benchmark_reverse_proxie.Runner.System.{
  Os, M, ◌>>=◌, ◌>>◌, pure, unwrap, Child, perform, command_output, command_spawn, wait_with_output,
  push, sleep, create_dir_all, create_file, write_all, wait_child,
}
use benchmark_reverse_proxie.Runner.Servers.{
  Server, rust, nginx, multi_process, name, spawn_server, kill_server,
}

abbrev pub oha_args : Bytes → Bool → List Bytes
oha_args url keepalive =
    bytes "--no-tui"
    ∷ bytes "--output-format"
    ∷ bytes "json"
    ∷ bytes "-c"
    ∷ bytes "100"
    ∷ bytes "-z"
    ∷ bytes "15s"
    ∷ bytes "--latency-correction"
    ∷ ((if not keepalive then bytes "--disable-keepalive" ∷ [] else []) ++ (url ∷ []))

abbrev pub result_dir : Server → Bytes
result_dir server = push (bytes "results") (name server)

abbrev pub origins : List Server
origins =
    rust (bytes "origin-actix")
    ∷ nginx (bytes "origin-nginx")
    ∷ rust (bytes "origin-c-epoll")
    ∷ multi_process (bytes "origin-c-epoll-mp")
    ∷ rust (bytes "origin-c-sync")
    ∷ rust (bytes "origin-heph")
    ∷ rust (bytes "origin-hyper")
    ∷ rust (bytes "origin-liburing")
    ∷ rust (bytes "origin-ntex")
    ∷ rust (bytes "origin-pingora")
    ∷ rust (bytes "origin-tokio")
    ∷ rust (bytes "origin-toysync")
    ∷ []

abbrev pub proxies : List Server
proxies =
    rust (bytes "proxy-actix")
    ∷ rust (bytes "proxy-hyper")
    ∷ rust (bytes "proxy-pingora")
    ∷ nginx (bytes "proxy-nginx")
    ∷ []

module _ (os : Os) where
  unfoldable pub cpu_power : Bytes → M Unit
  cpu_power mode = do
    command_output os (bytes "sh") (bytes "-c" ∷ (bytes "./cpu_power.sh " ++ mode) ∷ [])
    pure tt

  -- `File::create` and `write_all`.
  unfoldable pub write_file : Bytes → Bytes → M Unit
  write_file path content = perform os (create_file path) >> perform os (write_all path content)

  unfoldable pub run_curl : Bytes → Bytes → M Unit
  run_curl url output_dir = do
    stdout ← command_output os (bytes "curl") (bytes "-sSD" ∷ bytes "-" ∷ url ∷ [])
    write_file (push output_dir (bytes "curl.txt")) stdout

  unfoldable pub run_oha : Bytes → Bytes → Bool → M Unit
  run_oha url output_dir keepalive = do
    stdout ← command_output os (bytes "oha") (oha_args url keepalive)
    write_file
        (push output_dir
          (if keepalive then bytes "oha-keepalive.json" else bytes "oha-no-keepalive.json"))
        stdout

  unfoldable pub wait_and_write_output : Child → Bytes → Bytes → M Unit
  wait_and_write_output proc output_dir filename = do
    stdout ← wait_with_output os proc
    write_file (push output_dir filename) stdout

  -- From the first `sleep(2)` to the end of the second run of oha: both benchmarks do the same here.
  unfoldable pub measure : Bytes → Bytes → M Unit
  measure url dir = do
    perform os (sleep 2)
    run_curl url dir
    perform os (sleep 1)
    run_oha url dir false
    perform os (sleep 1)
    run_oha url dir true

  unfoldable pub bench_http_origin : Server → M Unit
  bench_http_origin origin = do
    perform os (sleep 10)
    origin_proc ← spawn_server os origin
    perform os (create_dir_all (result_dir origin))
    measure (bytes "http://localhost:3000") (result_dir origin)
    kill_server os origin origin_proc
    wait_and_write_output origin_proc (result_dir origin) (bytes "origin.txt")

  unfoldable pub bench_http_proxy : Server → Server → M Unit
  bench_http_proxy proxy origin = do
    perform os (sleep 10)
    origin_proc ← spawn_server os origin
    proxy_proc ← spawn_server os proxy
    perform os (create_dir_all (result_dir proxy))
    measure (bytes "http://localhost:3001") (result_dir proxy)
    kill_server os proxy proxy_proc
    wait_and_write_output proxy_proc (result_dir proxy) (bytes "proxy.txt")
    kill_server os origin origin_proc
    wait_and_write_output origin_proc (result_dir proxy) (bytes "origin.txt")

  unfoldable pub bench_origins : List Server → M Unit
  bench_origins [] = pure tt
  bench_origins (origin ∷ later) = unwrap (bench_http_origin origin) >> bench_origins later

  unfoldable pub bench_proxies : Server → List Server → M Unit
  bench_proxies origin [] = pure tt
  bench_proxies origin (proxy ∷ later) =
      unwrap (bench_http_proxy proxy origin) >> bench_proxies origin later

  -- All of `main` but its last line.
  unfoldable pub benchmarks : M Unit
  benchmarks = do
    unwrap (cpu_power (bytes "performance"))
    bench_origins origins
    bench_proxies (nginx (bytes "origin-nginx")) proxies

  unfoldable pub main : M Unit
  main = benchmarks >> unwrap (cpu_power (bytes "powersave"))

  -- build.rs
  unfoldable pub build_dirs : List Bytes → M Unit
  build_dirs [] = pure tt
  build_dirs (dir ∷ later) = do
    child ←
        unwrap
          (command_spawn os (some dir) (bytes "cargo") (bytes "build" ∷ bytes "--release" ∷ []))
    unwrap (wait_child os child)
    build_dirs later

  unfoldable pub build : M Unit
  build = build_dirs (
      bytes "origin-actix"
      ∷ bytes "origin-hyper"
      ∷ bytes "origin-pingora"
      ∷ bytes "proxy-actix"
      ∷ bytes "proxy-hyper"
      ∷ bytes "proxy-pingora"
      ∷ [])
