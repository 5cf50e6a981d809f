-- ===== src/Runner/Tests.antt =====
-- Systems that do everything, or that have no curl.
use benchmark_reverse_proxie.Common.{
  ◌≡◌, refl, Bool, true, false, List, [], ◌∷◌, ◌++◌, length, none,
}
use benchmark_reverse_proxie.Common.Bytes.{Bytes, bytes}
use benchmark_reverse_proxie.Common.Bytes.Utf8.{is_utf8}
use benchmark_reverse_proxie.Runner.System.{
  Op, sleep, output, spawn, create_dir_all, Os, ok, push, perform, command_output, command_spawn,
  wait_with_output, pure, unwrap, unwrap_some, ◌>>=◌,
}
use benchmark_reverse_proxie.Runner.Servers.{name, spawn_server, kill_server}
use benchmark_reverse_proxie.Runner.Bench.{
  origins, proxies, main, benchmarks, build, bench_http_origin, bench_http_proxy, bench_origins,
  bench_proxies, cpu_power, measure, run_curl, run_oha, write_file, wait_and_write_output,
}
use benchmark_reverse_proxie.Runner.Failure.{Stops}
use benchmark_reverse_proxie.Runner.Failure.Main.{Unreadable, NoError, main-Stops, build-Stops}
use benchmark_reverse_proxie.Http.{eq_bytes}
use benchmark_reverse_proxie.Runner.Processes.Keeps.{Leads}
use benchmark_reverse_proxie.Runner.Processes.Main.{behind_proxies, main-Leads}
use benchmark_reverse_proxie.Runner.Powersave.Main.{NoPowersave, main-powersave, powersave}
use benchmark_reverse_proxie.Runner.Success.Alone.{Alone}

abbrev working : Os
working = record {
  fails = λ log op. false;
  new_pid = length;
  printed = λ log op. bytes "ok";
  cwd = bytes "/srv";
  ends = λ log pid. true;
}

-- `create_dir_all` fails, as on a disk that is read-only.
abbrev is_create : Op → Bool
is_create (create_dir_all path) = true
is_create _ = false

abbrev read_only : Os
read_only = record working { fails = λ log op. is_create op }

main-Stops_example :
    Stops read_only (Unreadable read_only) (main read_only) × NoError read_only (main read_only)
main-Stops_example = main-Stops read_only

build-Stops_example : Stops read_only ⊥ (build read_only) × NoError read_only (build read_only)
build-Stops_example = build-Stops read_only

working-main : (main working []).0 ≡ ok tt
unfolding main benchmarks bench_origins bench_http_origin bench_http_proxy bench_proxies cpu_power
    spawn_server kill_server measure run_curl run_oha write_file wait_and_write_output
    wait_with_output perform command_output command_spawn pure unwrap unwrap_some push name is_utf8
    ◌>>=◌
working-main = refl

main-powersave_example :
    (before : List Op) × ((main working []).1 ≡ before ++ powersave working ∷ [])
    × NoPowersave working before
main-powersave_example = main-powersave working working-main

main-Leads_example : Leads read_only origins proxies behind_proxies [] (λ a. []) (main read_only)
main-Leads_example = main-Leads read_only

abbrev is_curl : Op → Bool
is_curl (output program args) = eq_bytes program (bytes "curl")
is_curl _ = false

abbrev no_curl : Os
no_curl = record working { fails = λ log op. is_curl op }

abbrev curl_args : List Bytes
curl_args = bytes "-sSD" ∷ bytes "-" ∷ bytes "http://localhost:3000" ∷ []

abbrev before_curl : List Op
before_curl =
    output (bytes "sh") (bytes "-c" ∷ bytes "./cpu_power.sh performance" ∷ [])
    ∷ sleep 10
    ∷ spawn none (bytes "origin-actix/target/release/origin-actix") []
    ∷ create_dir_all (bytes "results/origin-actix")
    ∷ sleep 2
    ∷ []
