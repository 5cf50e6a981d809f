-- ===== src/Runner/Failure/Main.antt =====
-- src/main.rs and build.rs: where `main` stops.
use benchmark_reverse_proxie.Common.{◌≡◌, ◌≢◌, refl, ◌⊎◌, inl, inr, false, List, [], ◌∷◌, some, All}
use benchmark_reverse_proxie.Common.Bytes.{Bytes, bytes}
use benchmark_reverse_proxie.Common.Bytes.Utf8.{is_utf8}
use benchmark_reverse_proxie.Runner.System.{
  Op, Os, Child, push, M, Result, ok, err, panicked, blocked, no_error, unwrap, pure, ◌>>=◌,
}
use benchmark_reverse_proxie.Runner.Servers.{Server, rust, nginx, spawn_server, kill_server}
use benchmark_reverse_proxie.Runner.Bench.{
  cpu_power, write_file, run_curl, run_oha, wait_and_write_output, measure, bench_http_origin,
  bench_http_proxy, bench_origins, bench_proxies, benchmarks, main, build_dirs, build, origins,
  proxies,
}
use benchmark_reverse_proxie.Runner.Failure.{
  Stops, stops_rules, Stops-wait_child, Stops-bind, Stops-unwrap, Stops-command_spawn,
}

module _ (os : Os) where
  -- The path of this configuration in the current directory is no text.
  abbrev pub NoText : Bytes → Type 0
  NoText config_dir = is_utf8 (push (push os.cwd config_dir) (bytes "nginx.conf")) ≡ false

  -- The path of one of the two configurations of nginx is no text.
  abbrev pub Unreadable : Type 0
  Unreadable = NoText (bytes "origin-nginx") ⊎ NoText (bytes "proxy-nginx")

module _ (os : Os) (Other : Type 0) where
  -- The path of the configuration, if the server is nginx and has one, is a text, but for `Other`.
  abbrev Known : Server → Type 0
  Known (nginx config_dir) = NoText os config_dir → Other
  Known _ = Unit

  Stops-spawn_server : (s : Server) → Known s → Stops os Other (spawn_server os s)
  unfolding spawn_server
  Stops-spawn_server (nginx config_dir) known = search stops_rules
  Stops-spawn_server _ known = search stops_rules

  Stops-kill_server : (s : Server) (proc : Child) → Stops os Other (kill_server os s proc)
  unfolding kill_server
  Stops-kill_server (rust n) proc = search stops_rules
  Stops-kill_server _ proc = search stops_rules

  Stops-write_file : (path content : Bytes) → Stops os Other (write_file os path content)
  unfolding write_file
  Stops-write_file path content = search stops_rules

  Stops-measure : (url dir : Bytes) → Stops os Other (measure os url dir)
  unfolding measure run_curl run_oha
  Stops-measure url dir = search (stops_rules, Stops-write_file) depth 12

  Stops-wait_and_write_output :
      (proc : Child) (dir filename : Bytes)
      → Stops os Other (wait_and_write_output os proc dir filename)
  unfolding wait_and_write_output
  Stops-wait_and_write_output proc dir filename = search (stops_rules, Stops-write_file)

  ruleset bench_rules = (
    stops_rules, Stops-spawn_server, Stops-kill_server, Stops-measure, Stops-wait_and_write_output,
  )

  Stops-bench_http_origin :
      (origin : Server) → Known origin → Stops os Other (bench_http_origin os origin)
  unfolding bench_http_origin
  Stops-bench_http_origin origin known = search bench_rules depth 12

  Stops-bench_http_proxy :
      (proxy origin : Server)
      → Known proxy
      → Known origin
      → Stops os Other (bench_http_proxy os proxy origin)
  unfolding bench_http_proxy
  Stops-bench_http_proxy proxy origin known known_origin = search bench_rules depth 14

  Stops-bench_origins :
      (servers : List Server) → All Known servers → Stops os Other (bench_origins os servers)
  unfolding bench_origins
  Stops-bench_origins [] known = search stops_rules
  Stops-bench_origins (origin ∷ later) known =
      Stops-bind os Other _ _ (Stops-unwrap os Other _ (Stops-bench_http_origin origin known.0))
        (λ a. Stops-bench_origins later known.1)

  Stops-bench_proxies :
      (origin : Server) (servers : List Server)
      → Known origin
      → All Known servers
      → Stops os Other (bench_proxies os origin servers)
  unfolding bench_proxies
  Stops-bench_proxies origin [] ko known = search stops_rules
  Stops-bench_proxies origin (proxy ∷ later) ko known =
      Stops-bind os Other _ _
        (Stops-unwrap os Other _ (Stops-bench_http_proxy proxy origin known.0 ko))
        (λ a. Stops-bench_proxies origin later ko known.1)

  Stops-cpu_power : (mode : Bytes) → Stops os Other (cpu_power os mode)
  unfolding cpu_power
  Stops-cpu_power mode = search stops_rules

  Stops-build_dirs : (dirs : List Bytes) → Stops os Other (build_dirs os dirs)
  unfolding build_dirs
  Stops-build_dirs [] = search stops_rules
  Stops-build_dirs (dir ∷ later) =
      Stops-bind os Other _ _
        (Stops-unwrap os Other _ (Stops-command_spawn os Other (some dir) _ _))
        (λ child.
          Stops-bind os Other _ _ (Stops-unwrap os Other _ (Stops-wait_child os Other child))
            (λ a. Stops-build_dirs later))

module _ (os : Os) where
  Known-origins : All (Known os (Unreadable os)) origins
  Known-origins = (tt, (inl, (tt, (tt, (tt, (tt, (tt, (tt, (tt, (tt, (tt, (tt, tt))))))))))))

  Known-proxies : All (Known os (Unreadable os)) proxies
  Known-proxies = (tt, (tt, (tt, (inr, tt))))

  Stops-benchmarks : Stops os (Unreadable os) (benchmarks os)
  unfolding benchmarks
  Stops-benchmarks = Stops-bind os _ _ _ (Stops-unwrap os _ _ (Stops-cpu_power os _ _)) (λ a.
      Stops-bind os _ _ _ (Stops-bench_origins os _ origins Known-origins)
        (λ b. Stops-bench_proxies os _ _ proxies inl Known-proxies))

  -- It returns, panics or waits, and gives no error.
  abbrev pub NoError : {A : Type 0} → M A → Type 0
  NoError m = (log : List Op) → (m log).0 ≢ err

  unwrapped : {A : Type 0} (r : Result A) → no_error r ≢ err
  unwrapped (ok a) e = cc
  unwrapped err e = cc
  unwrapped panicked e = cc
  unwrapped blocked e = cc

  NoError-unwrap : {A : Type 0} (m : M A) → NoError (unwrap m)
  unfolding unwrap
  NoError-unwrap m log = unwrapped (m log).0

  bound :
      {A B : Type 0} (f : A → M B)
      → ((a : A) → NoError (f a))
      → (r : Result A) (log : List Op) → r ≢ err
      → (((λ (l : List Op). (r, log)) >>= f) log).0 ≢ err
  unfolding ◌>>=◌
  bound f h (ok a) log n = h a log
  bound f h err log n = absurd (n refl)
  bound f h panicked log n = λ e. cc
  bound f h blocked log n = λ e. cc

  NoError-bind :
      {A B : Type 0} (m : M A) (f : A → M B)
      → NoError m
      → ((a : A) → NoError (f a))
      → NoError (m >>= f)
  unfolding ◌>>=◌
  NoError-bind m f h k log = bound f k (m log).0 (m log).1 (h log)

  NoError-pure : NoError (pure tt)
  unfolding pure
  NoError-pure log e = cc

  NoError-bench_origins : (servers : List Server) → NoError (bench_origins os servers)
  unfolding bench_origins
  NoError-bench_origins [] = NoError-pure
  NoError-bench_origins (origin ∷ later) =
      NoError-bind _ _ (NoError-unwrap _) (λ a. NoError-bench_origins later)

  NoError-bench_proxies :
      (origin : Server) (servers : List Server) → NoError (bench_proxies os origin servers)
  unfolding bench_proxies
  NoError-bench_proxies origin [] = NoError-pure
  NoError-bench_proxies origin (proxy ∷ later) =
      NoError-bind _ _ (NoError-unwrap _) (λ a. NoError-bench_proxies origin later)

  NoError-build_dirs : (dirs : List Bytes) → NoError (build_dirs os dirs)
  unfolding build_dirs
  NoError-build_dirs [] = NoError-pure
  NoError-build_dirs (dir ∷ later) =
      NoError-bind _ _ (NoError-unwrap _)
        (λ child. NoError-bind _ _ (NoError-unwrap _) (λ a. NoError-build_dirs later))

  main-NoError : NoError (main os)
  unfolding main benchmarks
  main-NoError =
      NoError-bind _ _
        (NoError-bind _ _ (NoError-unwrap _) (λ a.
          NoError-bind _ _ (NoError-bench_origins origins) (λ b. NoError-bench_proxies _ proxies)))
        (λ c. NoError-unwrap _)

  -- Whatever the system answers, `main` goes on only as long as no operation fails, and gives no
  -- error: it returns, and then every operation that it asked for has succeeded; or it panics, and
  -- then the last operation has failed and no other, or none has, and the path of
  -- `origin-nginx/nginx.conf` or of `proxy-nginx/nginx.conf` in the current directory is no UTF-8;
  -- or it waits for ever for a process that does not end, and no operation has failed.
  pub main-Stops : Stops os (Unreadable os) (main os) × NoError (main os)
  unfolding main
  main-Stops = (
    Stops-bind os _ _ _ Stops-benchmarks (λ a. Stops-unwrap os _ _ (Stops-cpu_power os _ _)),
    main-NoError,
  )

  -- Whatever the system answers, `main` of build.rs goes on only as long as no operation fails: it
  -- returns, and then every operation it asked for has succeeded, or it panics, and then the last
  -- operation has failed and no other, or it waits for ever for a build that does not end, and no
  -- operation has failed.
  pub build-Stops : Stops os ⊥ (build os) × NoError (build os)
  unfolding build
  build-Stops = (Stops-build_dirs os ⊥ _, NoError-build_dirs _)
