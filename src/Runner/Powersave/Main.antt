-- ===== src/Runner/Powersave/Main.antt =====
-- src/main.rs: when `main` puts the CPU back into its normal setting.
use benchmark_reverse_proxie.Common.{
  ◌≡◌, ◌≢◌, ◌⊎◌, refl, sym, false, List, [], ◌∷◌, ◌++◌, All, Bool-cases, inl, inr, subst,
}
use benchmark_reverse_proxie.Common.Bytes.{Bytes, bytes}
use benchmark_reverse_proxie.Runner.System.{
  Op, output, Os, Result, ok, err, panicked, blocked, ◌>>=◌, pure, unwrap, Child, perform,
  command_output,
}
use benchmark_reverse_proxie.Runner.Servers.{Server, rust, nginx, spawn_server, kill_server}
use benchmark_reverse_proxie.Runner.Bench.{
  cpu_power, write_file, run_curl, run_oha, wait_and_write_output, measure, bench_http_origin,
  bench_http_proxy, bench_origins, bench_proxies, benchmarks, main,
}
use benchmark_reverse_proxie.Runner.Powersave.{
  is_powersave, Leaves, leaves_rules, Leaves-bind, Leaves-unwrap,
}

module _ (os : Os) where
  Leaves-spawn_server : (s : Server) → Leaves os (spawn_server os s)
  unfolding spawn_server is_powersave
  Leaves-spawn_server (nginx config_dir) = search leaves_rules
  Leaves-spawn_server _ = search leaves_rules

  Leaves-kill_server : (s : Server) (proc : Child) → Leaves os (kill_server os s proc)
  unfolding kill_server is_powersave
  Leaves-kill_server (rust n) proc = search leaves_rules
  Leaves-kill_server _ proc = search leaves_rules

  Leaves-write_file : (path content : Bytes) → Leaves os (write_file os path content)
  unfolding write_file is_powersave
  Leaves-write_file path content = search leaves_rules

  Leaves-measure : (url dir : Bytes) → Leaves os (measure os url dir)
  unfolding measure run_curl run_oha is_powersave
  Leaves-measure url dir = search (leaves_rules, Leaves-write_file) depth 12

  Leaves-wait_and_write_output :
      (proc : Child) (dir filename : Bytes) → Leaves os (wait_and_write_output os proc dir filename)
  unfolding wait_and_write_output
  Leaves-wait_and_write_output proc dir filename = search (leaves_rules, Leaves-write_file)

  ruleset bench_rules = (
    leaves_rules, Leaves-spawn_server, Leaves-kill_server, Leaves-measure,
    Leaves-wait_and_write_output,
  )

  Leaves-bench_http_origin : (origin : Server) → Leaves os (bench_http_origin os origin)
  unfolding bench_http_origin is_powersave
  Leaves-bench_http_origin origin = search bench_rules depth 12

  Leaves-bench_http_proxy : (proxy origin : Server) → Leaves os (bench_http_proxy os proxy origin)
  unfolding bench_http_proxy is_powersave
  Leaves-bench_http_proxy proxy origin = search bench_rules depth 14

  Leaves-bench_origins : (servers : List Server) → Leaves os (bench_origins os servers)
  unfolding bench_origins
  Leaves-bench_origins [] = search leaves_rules
  Leaves-bench_origins (origin ∷ later) =
      Leaves-bind os _ _ (Leaves-unwrap os _ (Leaves-bench_http_origin origin))
        (λ a. Leaves-bench_origins later)

  Leaves-bench_proxies :
      (origin : Server) (servers : List Server) → Leaves os (bench_proxies os origin servers)
  unfolding bench_proxies
  Leaves-bench_proxies origin [] = search leaves_rules
  Leaves-bench_proxies origin (proxy ∷ later) =
      Leaves-bind os _ _ (Leaves-unwrap os _ (Leaves-bench_http_proxy proxy origin))
        (λ a. Leaves-bench_proxies origin later)

  Leaves-performance : Leaves os (cpu_power os (bytes "performance"))
  unfolding cpu_power is_powersave
  Leaves-performance = search leaves_rules

  Leaves-benchmarks : Leaves os (benchmarks os)
  unfolding benchmarks
  Leaves-benchmarks =
      search (leaves_rules, Leaves-performance, Leaves-bench_origins, Leaves-bench_proxies)

  abbrev pub powersave : Op
  powersave = output (bytes "sh") (bytes "-c" ∷ bytes "./cpu_power.sh powersave" ∷ [])

  abbrev pub NoPowersave : List Op → Type 0
  NoPowersave log = All (λ op. is_powersave op ≡ false) log

  unwrap-cpu_power-log :
      (mode : Bytes) (log : List Op)
      → (unwrap (cpu_power os mode) log).1
        ≡ log ++ output (bytes "sh") (bytes "-c" ∷ (bytes "./cpu_power.sh " ++ mode) ∷ []) ∷ []
  unfolding unwrap cpu_power command_output ◌>>=◌ perform pure
  unwrap-cpu_power-log mode log =
      let op : Op = output (bytes "sh") (bytes "-c" ∷ (bytes "./cpu_power.sh " ++ mode) ∷ []) in
      elim (Bool-cases (os.fails log op)) [ inl bad ↦ rw bad | inr good ↦ rw good ]

  main_returned :
      (log log' : List Op)
      → benchmarks os log ≡ (ok tt, log')
      → (main os log).1 ≡ log' ++ powersave ∷ []
  unfolding main ◌>>=◌
  main_returned log log' e = rw e (unwrap-cpu_power-log (bytes "powersave") log')

  main_stopped :
      (r : Result Unit) (log log' : List Op)
      → r ≢ ok tt
      → benchmarks os log ≡ (r, log')
      → main os log ≡ (r, log')
  unfolding main ◌>>=◌
  main_stopped (ok a) log log' h e = absurd (h refl)
  main_stopped err log log' h e = rw e
  main_stopped panicked log log' h e = rw e
  main_stopped blocked log log' h e = rw e

  pub main-NoPowersave :
      (benchmarks os []).0 ≢ ok tt → ((main os []).0 ≢ ok tt) × NoPowersave (main os []).1
  main-NoPowersave h =
      let (new, grown, none_of) = Leaves-benchmarks.at [] in
      let same = main_stopped (benchmarks os []).0 [] (benchmarks os []).1 h refl in
      (
        subst (λ (x : Result Unit × List Op). x.0 ≢ ok tt) (sym same) h,
        subst (λ (x : Result Unit × List Op). NoPowersave x.1) (sym same) (rw grown none_of),
      )

  result_cases : (r : Result (Unit {0})) → (r ≡ ok tt) ⊎ (r ≢ ok tt)
  result_cases (ok a) = inl refl
  result_cases err = inr (λ e. cc)
  result_cases panicked = inr (λ e. cc)
  result_cases blocked = inr (λ e. cc)

  -- If `main` returns, then the last thing that it asked for is the normal setting of the CPU, and
  -- it asked for it at no time before.
  pub main-powersave :
      (main os []).0 ≡ ok tt
      → (before : List Op) × ((main os []).1 ≡ before ++ powersave ∷ []) × NoPowersave before
  main-powersave done = elim (result_cases (benchmarks os []).0) [
    | inl returned ↦
        let (new, grown, none_of) = Leaves-benchmarks.at [] in
        (new, main_returned [] new (λ i. (returned i, grown i)), none_of)
    | inr stopped ↦ absurd ((main-NoPowersave stopped).0 done)
  ]
