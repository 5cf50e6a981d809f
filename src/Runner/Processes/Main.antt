-- ===== src/Runner/Processes/Main.antt =====
-- src/main.rs: which servers run while `main` measures, and which it leaves behind.
use benchmark_reverse_proxie.Common.{suc, refl, List, [], ◌∷◌, All}
use benchmark_reverse_proxie.Common.Bytes.{Bytes, bytes}
use benchmark_reverse_proxie.Runner.System.{Op, Os, unwrap}
use benchmark_reverse_proxie.Runner.Servers.{Server, nginx}
use benchmark_reverse_proxie.Runner.Bench.{cpu_power, benchmarks, main, origins, proxies}
use benchmark_reverse_proxie.Runner.Monitor.{Keeps-unwrap}
use benchmark_reverse_proxie.Runner.Processes.{Process, after, Contains, Measured, Allowed}
use benchmark_reverse_proxie.Runner.Processes.Keeps.{Leads, Stays-cpu_power}
use benchmark_reverse_proxie.Runner.Processes.Benches.{To, To-then, origins_To, proxies_To}

All-Contains_later :
    {A : Type 0} (x : A) (xs ys : List A) → All (Contains xs) ys → All (Contains (x ∷ xs)) ys
All-Contains_later x xs [] h = tt
All-Contains_later x xs (y ∷ ys) h = ((suc h.0.0, h.0.1), All-Contains_later x xs ys h.1)

All-Contains : {A : Type 0} (xs : List A) → All (Contains xs) xs
All-Contains [] = tt
All-Contains (x ∷ xs) = ((0, refl), All-Contains_later x xs xs (All-Contains xs))

-- The origin server behind the proxies.
abbrev pub behind_proxies : Server
behind_proxies = nginx (bytes "origin-nginx")

abbrev pub MeasuresWhatIsUp : Os → List Process → Bytes → Type 0
MeasuresWhatIsUp os ps url = Measured os origins proxies behind_proxies ps url

module _ (os : Os) where
  unwrap-cpu_power-To :
      (mode : Bytes)
      → To os origins proxies behind_proxies [] (λ a. []) (unwrap (cpu_power os mode))
  unwrap-cpu_power-To mode =
      Keeps-unwrap (after os) (Allowed os origins proxies behind_proxies) [] _ _
        (Stays-cpu_power os origins proxies behind_proxies mode)

  -- Whatever the system answers, and also where an operation fails: `main` asks curl and oha to
  -- measure port 3000 only while one process runs, that of one of the origin servers, and port 3001
  -- only while two run, those of one of the proxies and of the nginx behind it, and nothing was
  -- done to end them; it signals and waits for, by their ids, only what it has started and not
  -- waited for; it never has more than two processes; and if it returns then none is left.
  pub main-Leads : Leads os origins proxies behind_proxies [] (λ a. []) (main os)
  unfolding main benchmarks
  main-Leads =
      To-then os origins proxies behind_proxies [] [] _ _
        (To-then os origins proxies behind_proxies [] [] _ _ (unwrap-cpu_power-To _) λ a.
          To-then os origins proxies behind_proxies [] [] _ _
            (origins_To os origins proxies behind_proxies origins (All-Contains origins))
            λ b. proxies_To os origins proxies behind_proxies proxies (All-Contains proxies))
        λ c. unwrap-cpu_power-To _

  abbrev May : List Process → Op → Type 0
  May = Allowed os origins proxies behind_proxies
